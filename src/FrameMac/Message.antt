-- ===== src/FrameMac/Message.antt =====
-- common/src/crypto/frame_mac.rs: `build`, `tag` and `verify`. HMAC is a parameter: the bytes that
-- `update` is called on are one message, and what is built here is that message. Strings are their
-- bytes.
pub mod Cancel
pub mod Injective
use dkms.Prelude.{ℕ, ◌%◌, ◌^◌, Bool, true, false, List, [], ◌∷◌, ◌++◌, length, leb, if◌then◌else◌}
use dkms.Prelude.Bytes.{Bytes, be_bytes}
use dkms.Prelude.Outcome.{Outcome, ok, err, panic, ◌>>=◌}

pub data MacError : Type 0 where
  invalid : MacError

-- b"QKCFRAME"
abbrev pub tag_frame : Bytes
tag_frame = 81 ∷ 75 ∷ 67 ∷ 70 ∷ 82 ∷ 65 ∷ 77 ∷ 69 ∷ []

pub record FrameAad : Type 0 where
  pub kind : ℕ
  pub grade : ℕ
  pub session : ℕ
  pub counter : ℕ
  pub sender_id : ℕ
  pub receiver_id : ℕ
  pub dest_final : ℕ
  pub key_size_bits : ℕ
  pub epoch_id : ℕ
  pub key_ids : List Bytes
  pub header_orr_mp : Bytes
  pub header_dkms_mp : Bytes
  pub body : Bytes

-- The `assert!` panics where the length does not fit.
unfoldable pub write_lp16 : Bytes → Outcome MacError Bytes
write_lp16 x = if leb (length x) 65_535 then ok (be_bytes 2 (length x) ++ x) else panic

unfoldable pub write_key_ids : List Bytes → Outcome MacError Bytes
write_key_ids [] = ok []
write_key_ids (k ∷ ks) = do a ← write_lp16 k; rest ← write_key_ids ks; ok (a ++ rest)

-- The part before the key ids, as the list of its fields.
unfoldable pub fixed_part : FrameAad → Bytes → Bytes
fixed_part aad rest =
    tag_frame
    ++ (be_bytes 1 aad.kind
        ++ (be_bytes 1 aad.grade
            ++ (be_bytes 8 aad.session
                ++ (be_bytes 8 aad.counter
                    ++ (be_bytes 4 aad.sender_id
                        ++ (be_bytes 4 aad.receiver_id
                            ++ (be_bytes 4 aad.dest_final
                                ++ (be_bytes 2 aad.key_size_bits
                                    ++ (be_bytes 4 aad.epoch_id
                                        ++ (be_bytes 4 (length aad.key_ids % 2 ^ 32)
                                            ++ rest))))))))))

unfoldable pub build : FrameAad → Outcome MacError Bytes
build aad = do
  ids ← write_key_ids aad.key_ids
  orr ← write_lp16 aad.header_orr_mp
  dkms ← write_lp16 aad.header_dkms_mp
  ok (
      fixed_part aad
        (ids ++ (orr ++ (dkms ++ (be_bytes 4 (length aad.body % 2 ^ 32) ++ aad.body)))))

module _ (hmac : Bytes → Bytes → Bytes) (is_same : Bytes → Bytes → Bool) where
  unfoldable pub tag : Bytes → FrameAad → Outcome MacError Bytes
  tag key aad = do message ← build aad; ok (hmac key message)

  -- `verify_slice` compares the tag with the one that is computed.
  unfoldable pub verify : Bytes → FrameAad → Bytes → Outcome MacError (Unit {0})
  verify key aad mac = do
    message ← build aad
    if is_same (hmac key message) mac then ok tt else err invalid
