-- ===== src/Qkc/Crypto/Errors.antt =====
-- On what `decrypt` of qkc/src/crypto.rs does with any input.
use dkms.Prelude.{
  ℕ, zero, suc, ◌≤◌, ◌≡◌, refl, ap, ◌∙◌, Option, List, [], ◌∷◌, ◌++◌, length, arith, length-append,
  inl, inr, Option-cases, ltb, le_of_ltb, ◌==◌,
}
use dkms.Prelude.Bytes.{Bytes}
use dkms.Prelude.Outcome.{Yields, gives, refuses, Yields-bind, Yields-refuse_if, Yields-mono}
use dkms.Prelude.Xor.{xor_zip, length-xor_zip}
use dkms.Qkc.KeyStore.{OtpKey}
use dkms.Qkc.Crypto.{chunks_in, chunks, decrypt_chunks, decrypt, material_of}
use dkms.Qkc.Crypto.Chunks.{needed, num_chunks_lem, join, join-chunks_in, length-chunks_in}

decrypt_chunks-Yields :
    (find : ℕ → Option Bytes) (cs : List Bytes) (ids : List ℕ)
    → length cs ≤ length ids
    → Yields (λ (out : Bytes). length out ≡ length (join cs)) (decrypt_chunks find cs ids)
unfolding decrypt_chunks join
decrypt_chunks-Yields find [] ids l = gives [] refl
decrypt_chunks-Yields find (c ∷ cs) [] l = absurd (omega arith)
decrypt_chunks-Yields find (c ∷ cs) (id ∷ ids) l = elim (Option-cases (find id)) [
  | inl e ↦ rw (decrypt_chunks, e) (refuses _)
  | inr (mat, e) ↦
      rw (decrypt_chunks, e)
        (Yields-bind _ (Yields-refuse_if (ltb (length mat) (length c)) _) (λ u fits.
          Yields-bind _ (decrypt_chunks-Yields find cs ids (omega arith)) (λ rest same.
            gives (xor_zip c mat ++ rest) (
              omega (
                arith,
                length-append (xor_zip c mat) rest,
                length-append c (join cs),
                length-xor_zip c mat (le_of_ltb _ _ fits),
                same,
              )))))
]

-- Whatever ciphertext, ids, keys and size of a key it is given, `decrypt` does not panic, and what it
-- returns is as long as the ciphertext.
pub decrypt-Yields :
    (c : Bytes) (ids : List ℕ) (keys : List OtpKey) (n : ℕ)
    → Yields (λ (out : Bytes). length out ≡ length c) (decrypt c ids keys n)
unfolding decrypt chunks
decrypt-Yields [] ids keys n = gives [] refl
decrypt-Yields (b ∷ c) [] keys n = refuses _
decrypt-Yields (b ∷ c) (id ∷ ids) keys zero = refuses _
decrypt-Yields (b ∷ c) (id ∷ ids) keys (suc d) =
    let m = suc (length c) in
    let find = material_of keys in
    let whole = join-chunks_in m d (b ∷ c) (omega arith) in
    let count = length-chunks_in m d (b ∷ c) (omega arith) in
    Yields-bind _ (Yields-refuse_if (suc d == 0) _) (λ u _. rw (num_chunks_lem m d) (
      Yields-bind (λ w. decrypt_chunks find (chunks_in m (suc d) (b ∷ c)) (id ∷ ids))
        (Yields-refuse_if (ltb (suc (length ids)) (needed m d)) _)
        (λ w enough.
          Yields-mono (λ out same. same ∙ ap length whole)
            (decrypt_chunks-Yields find (chunks_in m (suc d) (b ∷ c)) (id ∷ ids)
              (omega (arith, count, le_of_ltb (suc (length ids)) (needed m d) enough))))))
