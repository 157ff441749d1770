-- ===== src/Aead.antt =====
-- common/src/crypto/aead.rs: AES-256-GCM with the tag apart. The cipher itself, `encrypt` and
-- `decrypt`, is a parameter: a key, a nonce, the associated data and a text, and for the one that
-- decrypts the tag.
use dkms.Prelude.{ℕ, not, Option, none, some, length, ◌==◌}
use dkms.Prelude.Bytes.{Bytes}
use dkms.Prelude.Outcome.{Outcome, ok, err, ◌>>◌, refuse_if}

abbrev pub key_len : ℕ
key_len = 32

abbrev pub nonce_len : ℕ
nonce_len = 12

pub data AeadError : Type 0 where
  bad_key_len : ℕ → AeadError
  bad_nonce_len : ℕ → AeadError
  encrypt_failed decrypt_failed : AeadError

-- `map_err`
unfoldable pub or_failed {ℓ} : {A : Type ℓ} → AeadError → Option A → Outcome AeadError A
or_failed e none = err e
or_failed e (some a) = ok a

unfoldable pub seal_detached :
    (Bytes → Bytes → Bytes → Bytes → Option (Bytes × Bytes))
    → (key nonce plaintext aad : Bytes) → Outcome AeadError (Bytes × Bytes)
seal_detached encrypt key nonce plaintext aad = do
  refuse_if (not (length key == key_len)) (bad_key_len (length key))
  or_failed encrypt_failed (encrypt key nonce aad plaintext)

unfoldable pub open_detached :
    (Bytes → Bytes → Bytes → Bytes → Bytes → Option Bytes)
    → (key nonce ciphertext tag aad : Bytes) → Outcome AeadError Bytes
open_detached decrypt key nonce ciphertext tag aad = do
  refuse_if (not (length key == key_len)) (bad_key_len (length key))
  or_failed decrypt_failed (decrypt key nonce aad ciphertext tag)
