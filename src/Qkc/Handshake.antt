-- ===== src/Qkc/Handshake.antt =====
-- qkc/src/pqc_handshake.rs: the ML-KEM handshake of a link, by epochs. The KEM, HMAC, signatures and
-- the check of a chain of certificates are parameters; a key pair and an encapsulation are drawn at
-- random, which is an argument. Whether the queue to the peer takes a frame is an argument too; what
-- it takes is at the end of `peer_out`. Logs and counters of the rotation are left out.
pub mod Messages
pub mod Handlers
pub mod Accept
pub mod Chain
pub mod Agree
pub mod Relink
use dkms.Prelude.{
  ℕ, zero, suc, ◌+◌, ◌-◌, ◌%◌, ◌^◌, min, max, Bool, true, false, not, ◌||◌, ◌&&◌, String, Option,
  none, some, List, [], ◌∷◌, ◌++◌, length, take, drop, ltb, leb, ◌==◌, if◌then◌else◌,
}
use dkms.Prelude.Assoc.{Assoc, nat_keys, lookup, insert, remove}
use dkms.Prelude.Bytes.{Bytes, be_bytes, from_be, same_bytes}
use dkms.Wire.Frame.{Frame, empty}
use dkms.Wire.Kinds.{
  frame_pqc_kem_init, frame_pqc_kem_resp, frame_pqc_kem_init_auth, frame_pqc_kem_resp_auth,
  frame_pqc_kem_init_signed, frame_pqc_kem_resp_signed, frame_pqc_resync_req,
  frame_pqc_resync_req_auth, frame_pqc_resync_req_signed,
}
use dkms.Qkc.LinkMac.{tag_init, tag_resp, tag_resync, tag_len, Covered, tag, verify}
use dkms.Qkc.SecretStore.{
  SecretStore, contains, highest, insert as insert_secret, replace as replace_secret,
  prune_below as prune_secrets, request_resync,
}

pub data PqcAuth : Type 0 where
  off prefer require sign : PqcAuth

pub data HsMsg : Type 0 where
  init resp resync_req : HsMsg

pub data RecvAuth : Type 0 where
  plain hmac signed : RecvAuth

abbrev pub signature_len : ℕ
signature_len = 3309

abbrev pub max_resync_jump : ℕ
max_resync_jump = 1024

pub record SignIdentity : Type 0 where
  pub signer : Bytes
  pub chain : List Bytes
  pub roots : Bytes

pub record PqcHandshake : Type 0 where
  pub suite : Bytes
  pub my_id : ℕ
  pub peer_id : ℕ
  pub peer_out : List Frame
  pub store : SecretStore
  pub lookahead : ℕ
  pub pending_sk : Assoc ℕ Bytes
  pub pending_pk : Assoc ℕ Bytes
  pub handshake_drops : ℕ
  pub resp_cache : Assoc ℕ (Bytes × Bytes)
  pub last_relink : Option ℕ
  pub psk : Option Bytes
  pub sign_seed : Option Bytes
  pub peer_verify_key : Option Bytes
  pub cert_id : Option SignIdentity
  pub peer_cert_id : String
  pub auth : PqcAuth
  pub key_size_bits : ℕ

-- The code that the handshake calls.
pub record Crypto : Type 0 where
  pub hmac_sha256 : Bytes → Bytes → Bytes
  pub is_same : Bytes → Bytes → Bool
  pub has_suite : Bool
  pub keygen : ℕ → Option (Bytes × Bytes)
  pub encap : ℕ → Bytes → Option (Bytes × Bytes)
  pub decap : (secret ciphertext : Bytes) → Option Bytes
  pub sign_handshake_with : (signer : Bytes) → Covered → Bytes
  pub sign_handshake : (seed : Bytes) → Covered → Option Bytes
  pub verify_handshake : (key : Bytes) → Covered → (sig : Bytes) → Bool
  pub verify_node_cert : List Bytes → (roots : Bytes) → String → Option Bytes

unfoldable pub kinds : HsMsg → ℕ × ℕ × ℕ
kinds init = (frame_pqc_kem_init, frame_pqc_kem_init_auth, frame_pqc_kem_init_signed)
kinds resp = (frame_pqc_kem_resp, frame_pqc_kem_resp_auth, frame_pqc_kem_resp_signed)
kinds resync_req = (frame_pqc_resync_req, frame_pqc_resync_req_auth, frame_pqc_resync_req_signed)

unfoldable pub tag_of : HsMsg → Bytes
tag_of init = tag_init
tag_of resp = tag_resp
tag_of resync_req = tag_resync

unfoldable pub chain_entries : List Bytes → Bytes
chain_entries [] = []
chain_entries (c ∷ cs) = be_bytes 4 (length c % 2 ^ 32) ++ (c ++ chain_entries cs)

unfoldable pub encode_cert_chain : List Bytes → Bytes
unfolding chain_entries
encode_cert_chain chain = be_bytes 2 (length chain % 2 ^ 16) ++ chain_entries chain

-- `split_first_chunk` of the length, and `split_at` behind it
unfoldable pub split_first : ℕ → Bytes → Option (Bytes × Bytes)
split_first n b = if ltb (length b) n then none else some (take n b, drop n b)

unfoldable pub push_cert : Bytes → Option (List Bytes × Bytes) → Option (List Bytes × Bytes)
push_cert c none = none
push_cert c (some (chain, rest)) = some (c ∷ chain, rest)

-- The `?` of a part that is missing.
unfoldable pub and_then {ℓ κ} : {A : Type ℓ} {B : Type κ} → Option A → (A → Option B) → Option B
and_then none next = none
and_then (some a) next = next a

unfoldable pub read_certs : ℕ → Bytes → Option (List Bytes × Bytes)
unfolding split_first push_cert and_then
read_certs zero rest = some ([], rest)
read_certs (suc n) rest =
    and_then (split_first 4 rest)
      (λ a. and_then (split_first (from_be a.0) a.1) (λ b. push_cert b.0 (read_certs n b.1)))

unfoldable pub split_cert_chain : Bytes → Option (List Bytes × Bytes)
unfolding read_certs and_then split_first
split_cert_chain buf = and_then (split_first 2 buf) (λ a. read_certs (from_be a.0) a.1)

unfoldable pub split_epoch : Bytes → Option (ℕ × Bytes)
split_epoch payload =
    if ltb (length payload) 4 then none else some (from_be (take 4 payload), drop 4 payload)

unfoldable pub is_some {ℓ} : {A : Type ℓ} → Option A → Bool
is_some none = false
is_some (some a) = true

unfoldable pub is_initiator : PqcHandshake → Bool
is_initiator p = ltb p.my_id p.peer_id

unfoldable pub publish_inner : PqcHandshake → ℕ → Bytes → (replaces : Bool) → PqcHandshake
publish_inner p epoch ss replaces = if not (length ss == 32) then p else record p {
  store = if replaces then replace_secret p.store epoch ss else insert_secret p.store epoch ss;
}

-- The plain frames are refused where the policy wants authentication.
unfoldable pub requires_auth : PqcAuth → Option Bytes → Bool
requires_auth off psk = false
requires_auth prefer psk = false
requires_auth require none = false
requires_auth require (some psk) = true
requires_auth sign psk = true
