-- ===== src/Qkc/Crypto/RoundTrip.antt =====
-- On `encrypt` and `decrypt` of qkc/src/crypto.rs.
use dkms.Prelude.{
  ℕ, zero, suc, ◌≤◌, ◌<◌, ◌≡◌, refl, sym, ap, subst, drop_all, ◌∙◌, Option, some, List, [], ◌∷◌,
  ◌++◌, map, length, take, drop, All, arith, ◌==◌, false, length-append, length-drop, length-take,
  take-append-drop, ltb-false, inl, inr, ◌⊎◌, Bool-cases, leb,
}
use dkms.Prelude.Bytes.{Bytes}
use dkms.Prelude.Outcome.{Outcome, ok}
use dkms.Prelude.Xor.{xor_zip, length-xor_zip, xor_zip_twice}
use dkms.Qkc.Error.{QkcError}
use dkms.Qkc.KeyStore.{OtpKey}
use dkms.Qkc.Crypto.{
  chunks_in, chunks, encrypt_chunks, encrypt, decrypt_chunks, decrypt, material_of, num_chunks,
}
use dkms.Qkc.Crypto.Chunks.{
  needed, needed_zero, needed_step, num_chunks_lem, IsCut, chunks_in-IsCut, length-chunks_in,
}

-- A key of `n` bytes that is found by its id.
abbrev pub IsHeld : ℕ → (ℕ → Option Bytes) → OtpKey → Type 0
IsHeld n find k = (length k.material ≡ n) × (find k.key_id ≡ some k.material)

abbrev pub ids_of : List OtpKey → List ℕ
ids_of keys = map (λ (k : OtpKey). k.key_id) keys

-- What the two loops make of some bytes in chunks of `n`.
record IsTrip (find : ℕ → Option Bytes) (rounds n : ℕ) (bytes : Bytes) (keys : List OtpKey)
    (r : Bytes × List ℕ) : Type 0 where
  encrypted : encrypt_chunks (chunks_in rounds n bytes) keys ≡ ok r
  same_length : length r.0 ≡ length bytes
  id_for_each : length r.1 ≡ length (chunks_in rounds n bytes)
  first_ids : r.1 ≡ take (length (chunks_in rounds n bytes)) (ids_of keys)
  decrypted : decrypt_chunks find (chunks_in rounds n r.0) r.1 ≡ ok bytes

cut_or_end : (n : ℕ) (bytes : Bytes) → (length (take n bytes) ≡ n) ⊎ (length bytes ≤ n)
cut_or_end n bytes = elim (Bool-cases (leb n (length bytes))) [
  | inl e ↦ inl (ground (arith, length-take n bytes))
  | inr e ↦ inr (ground arith)
]

none_left : (bytes : Bytes) → length bytes ≡ 0 → bytes ≡ []
none_left [] e = refl
none_left (b ∷ bytes) e = absurd (omega arith)

IsCut-length : (x y : Bytes) (n : ℕ) → IsCut x y n → length x ≤ n
IsCut-length x y n (inl e) = omega arith
IsCut-length x y n (inr (l, e)) = l

module _ (find : ℕ → Option Bytes) (rounds n : ℕ) (x y : Bytes) (k : OtpKey) (keys : List OtpKey)
    (r : Bytes × List ℕ) (some_byte : 0 < length x) (cut : IsCut x y n) (held : IsHeld n find k)
    (trip : IsTrip find rounds n y keys r) where
  fits : length x ≤ length k.material
  fits = omega (arith, IsCut-length x y n cut, held.0)

  IsCut-encrypted : IsCut (xor_zip x k.material) r.0 n
  IsCut-encrypted = elim cut [
    | inl e ↦ inl (omega (arith, length-xor_zip x k.material fits, e))
    | inr (l, e) ↦ inr (
      omega (arith, length-xor_zip x k.material fits),
      none_left r.0 (trip.same_length ∙ ap length e),
    )
  ]

  step-IsTrip :
      IsTrip find (suc rounds) n (x ++ y) (k ∷ keys) (xor_zip x k.material ++ r.0, k.key_id ∷ r.1)
  unfolding encrypt_chunks decrypt_chunks
  step-IsTrip = record {
    encrypted = rw (chunks_in-IsCut rounds n x y some_byte cut, trip.encrypted);
    same_length = omega (
      arith,
      length-append (xor_zip x k.material) r.0,
      length-append x y,
      length-xor_zip x k.material fits,
      trip.same_length,
    );
    id_for_each = rw (chunks_in-IsCut rounds n x y some_byte cut) (ap suc trip.id_for_each);
    first_ids = rw (chunks_in-IsCut rounds n x y some_byte cut) (ap (◌∷◌ k.key_id) trip.first_ids);
    decrypted = rw (
      chunks_in-IsCut rounds n (xor_zip x k.material) r.0
          (omega (arith, length-xor_zip x k.material fits)) IsCut-encrypted,
      decrypt_chunks,
      held.1,
      ltb-false (length k.material) (length (xor_zip x k.material))
          (omega (arith, length-xor_zip x k.material fits, fits)),
      trip.decrypted,
      xor_zip_twice x k.material fits,
    );
  }

loop-IsTrip :
    (find : ℕ → Option Bytes) (rounds d : ℕ) (bytes : Bytes) (keys : List OtpKey)
    → length bytes ≤ rounds
    → needed (length bytes) d ≤ length keys
    → All (IsHeld (suc d) find) keys
    → (r : Bytes × List ℕ) × IsTrip find rounds (suc d) bytes keys r
unfolding encrypt_chunks decrypt_chunks chunks_in
loop-IsTrip find zero d [] keys l n h = (
  ([], []),
  record {
    encrypted = refl;
    same_length = refl;
    id_for_each = refl;
    first_ids = refl;
    decrypted = refl;
  },
)
loop-IsTrip find zero d (b ∷ bytes) keys l n h = absurd (omega arith)
loop-IsTrip find (suc rounds) d [] keys l n h = (
  ([], []),
  record {
    encrypted = refl;
    same_length = refl;
    id_for_each = refl;
    first_ids = refl;
    decrypted = refl;
  },
)
loop-IsTrip find (suc rounds) d (b ∷ bytes) [] l n h =
    absurd (omega (arith, needed_step (suc (length bytes)) d (omega arith)))
loop-IsTrip find (suc rounds) d (b ∷ bytes) (k ∷ keys) l n h =
    let x = take (suc d) (b ∷ bytes) in
    let y = drop (suc d) (b ∷ bytes) in
    let less = length-drop (suc d) (b ∷ bytes) in
    let cut : IsCut x y (suc d) = elim (cut_or_end (suc d) (b ∷ bytes)) [
      | inl e ↦ inl e
      | inr e ↦ inr (omega (arith, length-take (suc d) (b ∷ bytes)), drop_all (b ∷ bytes) (suc d) e)
    ] in
    let fewer : needed (length y) d ≤ length keys =
      omega (
        arith,
        needed_step (suc (length bytes)) d (omega arith),
        ap (λ (t : ℕ). needed t d) less,
      ) in
    let (r, trip) = loop-IsTrip find rounds d y keys (omega (arith, less)) fewer h.1 in
    (
      (xor_zip x k.material ++ r.0, k.key_id ∷ r.1),
      subst
          (λ z.
            IsTrip find (suc rounds) (suc d) z (k ∷ keys)
              (xor_zip x k.material ++ r.0, k.key_id ∷ r.1))
          (take-append-drop (suc d) (b ∷ bytes))
          (step-IsTrip find rounds (suc d) x y k keys r
            (omega (arith, length-take (suc d) (b ∷ bytes))) cut h.0 trip),
    )

suc_eq_zero : (n : ℕ) → (suc n == 0) ≡ false
suc_eq_zero n = ground arith

decrypt_enough :
    (c : Bytes) (ids : List ℕ) (held : List OtpKey) (d : ℕ)
    → 0 < length c
    → needed (length c) d ≤ length ids
    → decrypt c ids held (suc d)
      ≡ decrypt_chunks (material_of held) (chunks_in (length c) (suc d) c) ids
unfolding decrypt chunks
decrypt_enough [] ids held d p l = absurd (omega arith)
decrypt_enough (b ∷ c) [] held d p l =
    absurd (omega (arith, needed_step (suc (length c)) d (omega arith)))
decrypt_enough (b ∷ c) (id ∷ ids) held d p l = rw (
  suc_eq_zero d,
  num_chunks_lem (suc (length c)) d,
  ltb-false (suc (length ids)) (needed (suc (length c)) d) l,
)

encrypt_enough :
    (b : ℕ) (bytes : Bytes) (k : OtpKey) (keys : List OtpKey) (d : ℕ)
    → length k.material ≡ suc d
    → needed (suc (length bytes)) d ≤ suc (length keys)
    → encrypt (b ∷ bytes) (k ∷ keys)
      ≡ encrypt_chunks (chunks_in (suc (length bytes)) (suc d) (b ∷ bytes)) (k ∷ keys)
unfolding encrypt chunks
encrypt_enough b bytes k keys d e l = rw (
  e,
  suc_eq_zero d,
  num_chunks_lem (suc (length bytes)) d,
  ltb-false (suc (length keys)) (needed (suc (length bytes)) d) l,
)

ok_eq : {m n : ℕ} → ◌≡◌ {A = Outcome QkcError ℕ} (ok m) (ok n) → m ≡ n
ok_eq h = cc

-- What is to be sent and what the receiver makes of it.
pub record IsCarried (bytes : Bytes) (keys held : List OtpKey) (n m : ℕ) (r : Bytes × List ℕ)
    : Type 0 where
  pub encrypted : encrypt bytes keys ≡ ok r
  pub same_length : length r.0 ≡ length bytes
  pub first_ids : r.1 ≡ take m (ids_of keys)
  pub decrypted : decrypt r.0 r.1 held n ≡ ok bytes

-- With keys of `n` bytes, at least as many as the bytes have chunks of `n`, and a receiver that
-- finds each of them by its id, encryption succeeds, keeps the length and names the first keys in
-- their order, one for each chunk, and decryption gives the bytes back.
pub decrypt-encrypt :
    (bytes : Bytes) (keys held : List OtpKey) (n m : ℕ)
    → 0 < n
    → num_chunks (length bytes) n ≡ ok m
    → m ≤ length keys
    → All (IsHeld n (material_of held)) keys
    → (r : Bytes × List ℕ) × IsCarried bytes keys held n m r
unfolding encrypt decrypt chunks
decrypt-encrypt bytes keys held zero m p e l h = absurd (omega arith)
decrypt-encrypt [] keys held (suc d) m p e l h =
    let none : m ≡ 0 = ok_eq (sym e ∙ num_chunks_lem 0 d) ∙ needed_zero d in
    (
      ([], []),
      record { encrypted = refl; same_length = refl; first_ids = rw none; decrypted = refl },
    )
decrypt-encrypt (b ∷ bytes) [] held (suc d) m p e l h = absurd (
    omega (
      arith,
      ok_eq (sym e ∙ num_chunks_lem (suc (length bytes)) d),
      needed_step (suc (length bytes)) d (omega arith),
    ))
decrypt-encrypt (b ∷ bytes) (k ∷ keys) held (suc d) m p e l h =
    let same = ok_eq (sym e ∙ num_chunks_lem (suc (length bytes)) d) in
    let enough : needed (suc (length bytes)) d ≤ suc (length keys) = omega (arith, same) in
    let (r, trip) =
      loop-IsTrip (material_of held) (suc (length bytes)) d (b ∷ bytes) (k ∷ keys) (omega arith)
        enough h in
    let count = length-chunks_in (suc (length bytes)) d (b ∷ bytes) (omega arith) in
    let ids : needed (length r.0) d ≤ length r.1 =
      omega (arith, trip.id_for_each, count, ap (λ (t : ℕ). needed t d) trip.same_length) in
    (
      r,
      record {
        encrypted = encrypt_enough b bytes k keys d h.0.0 enough ∙ trip.encrypted;
        same_length = trip.same_length;
        first_ids = trip.first_ids ∙ ap (λ t. take t (ids_of (k ∷ keys))) (count ∙ sym same);
        decrypted =
            decrypt_enough r.0 r.1 held d (omega (arith, trip.same_length)) ids
            ∙ ap (λ t. decrypt_chunks (material_of held) (chunks_in t (suc d) r.0) r.1)
                trip.same_length
            ∙ trip.decrypted;
      },
    )
