-- ===== src/Qkc/LinkMac.antt =====
-- common/src/crypto/link_mac.rs: the MAC of a message of the PQC handshake. HMAC and its comparison
-- are parameters. The `debug_assert` of `write_lp16` is no part of a release build: there a length is
-- cut to its two bytes.
use dkms.Prelude.{ℕ, ◌%◌, ◌^◌, Bool, ◌++◌, [], ◌∷◌, length}
use dkms.Prelude.Bytes.{Bytes, be_bytes}

-- `QKCINIT`
abbrev pub tag_init : Bytes
tag_init = 81 ∷ 75 ∷ 67 ∷ 73 ∷ 78 ∷ 73 ∷ 84 ∷ []

-- `QKCRESP`
abbrev pub tag_resp : Bytes
tag_resp = 81 ∷ 75 ∷ 67 ∷ 82 ∷ 69 ∷ 83 ∷ 80 ∷ []

-- `QKCRESYNC`
abbrev pub tag_resync : Bytes
tag_resync = 81 ∷ 75 ∷ 67 ∷ 82 ∷ 69 ∷ 83 ∷ 89 ∷ 78 ∷ 67 ∷ []

abbrev pub tag_len : ℕ
tag_len = 32

unfoldable pub write_lp16 : Bytes → Bytes
write_lp16 x = be_bytes 2 (length x % 2 ^ 16) ++ x

-- What a MAC or a signature of the handshake covers.
pub record Covered : Type 0 where
  pub tag_kind : Bytes
  pub epoch : ℕ
  pub sender_id : ℕ
  pub receiver_id : ℕ
  pub blob : Bytes
  pub suite_id : Bytes
  pub key_size_bits : ℕ

unfoldable pub message : Covered → Bytes
unfolding write_lp16
message c =
    c.tag_kind
    ++ (be_bytes 4 c.epoch
        ++ (be_bytes 4 c.sender_id
            ++ (be_bytes 4 c.receiver_id
                ++ (write_lp16 c.blob ++ (write_lp16 c.suite_id ++ be_bytes 4 c.key_size_bits)))))

module _ (hmac : Bytes → Bytes → Bytes) (is_same : Bytes → Bytes → Bool) where
  unfoldable pub tag : (psk : Bytes) → Covered → Bytes
  unfolding message
  tag psk c = hmac psk (message c)

  unfoldable pub verify : (psk : Bytes) → Covered → (mac : Bytes) → Bool
  unfolding message
  verify psk c mac = is_same (hmac psk (message c)) mac
