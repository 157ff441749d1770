-- ===== src/Orr/Macs.antt =====
-- orr/src/macs.rs: the MACs of the three messages of a rotation. HMAC and its comparison are
-- parameters, and a router's id is the bytes of its text. The `debug_assert` of `write_lp16` is no
-- part of a release build: there a length is cut to its two bytes.
pub mod Messages
use dkms.Prelude.{ℕ, ◌%◌, ◌^◌, Bool, not, List, [], ◌∷◌, ◌++◌, length}
use dkms.Prelude.Bytes.{Bytes, be_bytes}
use dkms.Prelude.Outcome.{Outcome, refuse_if}

-- `REQ`
abbrev pub tag_req : Bytes
tag_req = 82 ∷ 69 ∷ 81 ∷ []

-- `RESP`
abbrev pub tag_resp : Bytes
tag_resp = 82 ∷ 69 ∷ 83 ∷ 80 ∷ []

-- `FIN`
abbrev pub tag_fin : Bytes
tag_fin = 70 ∷ 73 ∷ 78 ∷ []

pub data RotationMacError : Type 0 where
  invalid : RotationMacError

unfoldable pub write_lp16 : Bytes → Bytes
write_lp16 x = be_bytes 2 (length x % 2 ^ 16) ++ x

unfoldable pub req_message : (epoch_id : ℕ) → (from peer : Bytes) → Bytes
req_message epoch_id from peer =
    tag_req ++ (be_bytes 4 epoch_id ++ (write_lp16 from ++ write_lp16 peer))

unfoldable pub resp_message : (epoch_id : ℕ) → (from peer ephemeral_pubkey : Bytes) → Bytes
resp_message epoch_id from peer ephemeral_pubkey =
    tag_resp
    ++ (be_bytes 4 epoch_id
        ++ (write_lp16 from ++ (write_lp16 peer ++ write_lp16 ephemeral_pubkey)))

unfoldable pub fin_message : (epoch_id : ℕ) → (from peer ciphertext : Bytes) → Bytes
fin_message epoch_id from peer ciphertext =
    tag_fin
    ++ (be_bytes 4 epoch_id ++ (write_lp16 from ++ (write_lp16 peer ++ write_lp16 ciphertext)))

module _ (hmac : Bytes → Bytes → Bytes) (is_same : Bytes → Bytes → Bool) (bootstrap : Bytes) where
  unfoldable pub mac_req : (epoch_id : ℕ) → (from peer : Bytes) → Bytes
  mac_req epoch_id from peer = hmac bootstrap (req_message epoch_id from peer)

  unfoldable pub mac_resp : (epoch_id : ℕ) → (from peer ephemeral_pubkey : Bytes) → Bytes
  mac_resp epoch_id from peer ephemeral_pubkey =
      hmac bootstrap (resp_message epoch_id from peer ephemeral_pubkey)

  unfoldable pub mac_fin : (epoch_id : ℕ) → (from peer ciphertext : Bytes) → Bytes
  mac_fin epoch_id from peer ciphertext = hmac bootstrap (fin_message epoch_id from peer ciphertext)

  -- `mac.verify_slice(tag)`
  unfoldable pub verify_slice : Bytes → Bytes → Outcome RotationMacError (Unit {0})
  verify_slice message tag = refuse_if (not (is_same (hmac bootstrap message) tag)) invalid

  unfoldable pub verify_mac_req :
      (epoch_id : ℕ) → (from peer tag : Bytes) → Outcome RotationMacError (Unit {0})
  verify_mac_req epoch_id from peer tag = verify_slice (req_message epoch_id from peer) tag

  unfoldable pub verify_mac_resp :
      (epoch_id : ℕ)
      → (from peer ephemeral_pubkey tag : Bytes) → Outcome RotationMacError (Unit {0})
  verify_mac_resp epoch_id from peer ephemeral_pubkey tag =
      verify_slice (resp_message epoch_id from peer ephemeral_pubkey) tag

  unfoldable pub verify_mac_fin :
      (epoch_id : ℕ) → (from peer ciphertext tag : Bytes) → Outcome RotationMacError (Unit {0})
  verify_mac_fin epoch_id from peer ciphertext tag =
      verify_slice (fin_message epoch_id from peer ciphertext) tag
