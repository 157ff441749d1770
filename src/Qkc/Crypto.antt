-- ===== src/Qkc/Crypto.antt =====
-- qkc/src/crypto.rs: the one-time pad of a link, a key for each chunk. A message that an error
-- carries is its text without the values that are printed in it.
pub mod Chunks
pub mod RoundTrip
pub mod Errors
use dkms.Prelude.{
  ℕ, zero, suc, ◌+◌, ◌-◌, ◌/◌, ◌%◌, ◌^◌, Bool, true, false, Option, none, some, List, [], ◌∷◌, ◌++◌,
  length, take, drop, ltb, ◌==◌, if◌then◌else◌,
}
use dkms.Prelude.Assoc.{nat_keys, lookup}
use dkms.Prelude.Bytes.{Bytes}
use dkms.Prelude.Outcome.{Outcome, ok, err, panic, refuse_if, ◌>>=◌, ◌>>◌}
use dkms.Prelude.Xor.{xor_zip}
use dkms.Qkc.Error.{QkcError, bad_request, not_enough_keys, quditto}
use dkms.Qkc.KeyStore.{OtpKey, insert_all}

-- `n.div_ceil(d)`, which panics where `d` is 0
unfoldable pub div_ceil : ℕ → ℕ → Outcome QkcError ℕ
div_ceil n zero = panic
div_ceil n (suc d) = ok ((n + d) / suc d)

unfoldable pub num_chunks : ℕ → ℕ → Outcome QkcError ℕ
unfolding div_ceil
num_chunks n_bytes chunk_bytes = if n_bytes == 0 then ok 0 else div_ceil n_bytes chunk_bytes

-- `bytes.chunks(n)`, in at most as many rounds as the first argument says
unfoldable pub chunks_in : ℕ → ℕ → Bytes → List Bytes
chunks_in zero n bytes = []
chunks_in (suc rounds) n [] = []
chunks_in (suc rounds) n (b ∷ bytes) = take n (b ∷ bytes) ∷ chunks_in rounds n (drop n (b ∷ bytes))

unfoldable pub chunks : ℕ → Bytes → List Bytes
chunks n bytes = chunks_in (length bytes) n bytes

-- The loop of `encrypt`, where the key of a chunk is read by its index.
unfoldable pub encrypt_chunks : List Bytes → List OtpKey → Outcome QkcError (Bytes × List ℕ)
encrypt_chunks [] keys = ok ([], [])
encrypt_chunks (c ∷ cs) [] = panic
encrypt_chunks (c ∷ cs) (k ∷ keys) = do
  rest ← encrypt_chunks cs keys
  ok (xor_zip c k.material ++ rest.0, k.key_id ∷ rest.1)

unfoldable pub encrypt : Bytes → List OtpKey → Outcome QkcError (Bytes × List ℕ)
encrypt [] keys = ok ([], [])
encrypt (b ∷ bytes) [] = err (bad_request "encrypt called with 0 keys")
encrypt (b ∷ bytes) (k ∷ keys) = do
  let chunk_bytes = length k.material
  refuse_if (chunk_bytes == 0) (bad_request "encrypt: key material is empty")
  needed ← num_chunks (length (b ∷ bytes)) chunk_bytes
  refuse_if (ltb (length (k ∷ keys)) needed)
      (not_enough_keys (needed % 2 ^ 32) (length (k ∷ keys) % 2 ^ 32))
  encrypt_chunks (chunks chunk_bytes (b ∷ bytes)) (k ∷ keys)

-- `keys.iter().find(|k| k.key_id == *id)`
unfoldable pub find_key : List OtpKey → ℕ → Option Bytes
find_key [] id = none
find_key (k ∷ keys) id =
    let rest = find_key keys id in if k.key_id == id then some k.material else rest

-- Of many keys a map is made, in which the last key of an id stays.
unfoldable pub material_of : List OtpKey → ℕ → Option Bytes
material_of keys id =
    if ltb 8 (length keys) then lookup id (insert_all keys []) else find_key keys id

-- The loop of `decrypt`, where the id of a chunk is read by its index.
unfoldable pub decrypt_chunks : (ℕ → Option Bytes) → List Bytes → List ℕ → Outcome QkcError Bytes
decrypt_chunks find [] ids = ok []
decrypt_chunks find (c ∷ cs) [] = panic
decrypt_chunks find (c ∷ cs) (id ∷ ids) = elim (find id) [
  | none ↦ err (quditto "missing key for key_id")
  | some mat ↦ do
    refuse_if (ltb (length mat) (length c)) (quditto "key is shorter than chunk")
    rest ← decrypt_chunks find cs ids
    ok (xor_zip c mat ++ rest)
]

unfoldable pub decrypt : Bytes → List ℕ → List OtpKey → ℕ → Outcome QkcError Bytes
decrypt [] key_ids_order keys chunk_bytes = ok []
decrypt (b ∷ bytes) [] keys chunk_bytes = err (bad_request "decrypt: no key_ids in header")
decrypt (b ∷ bytes) (id ∷ ids) keys chunk_bytes = do
  refuse_if (chunk_bytes == 0) (bad_request "decrypt: chunk_bytes == 0")
  needed ← num_chunks (length (b ∷ bytes)) chunk_bytes
  refuse_if (ltb (length (id ∷ ids)) needed)
      (bad_request "decrypt: header lists fewer key_ids than chunks are needed")
  decrypt_chunks (material_of keys) (chunks chunk_bytes (b ∷ bytes)) (id ∷ ids)
