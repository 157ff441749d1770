-- ===== src/Qkc/Handshake/Messages.antt =====
-- qkc/src/pqc_handshake.rs: `send_handshake` and `accept`, the messages of the handshake under the
-- policies of a link.
use dkms.Prelude.{
  ℕ, ◌+◌, ◌-◌, Bool, true, false, Option, none, some, List, [], ◌∷◌, ◌++◌, length, take, drop, ltb,
  if◌then◌else◌,
}
use dkms.Prelude.Assoc.{nat_keys}
use dkms.Prelude.Bytes.{Bytes, be_bytes}
use dkms.Wire.Frame.{Frame, empty}
use dkms.Qkc.LinkMac.{tag_len, Covered, tag, verify}
use dkms.Qkc.Handshake.{
  PqcAuth, off, prefer, require, sign, HsMsg, RecvAuth, plain, hmac, signed, SignIdentity,
  PqcHandshake, Crypto, signature_len, kinds, tag_of, encode_cert_chain, split_cert_chain,
  split_epoch, requires_auth,
}

module _ (crypto : Crypto) (p : PqcHandshake) where
  -- What is covered of a message that this end sends, or that the peer sends.
  unfoldable pub covered_own : HsMsg → ℕ → Bytes → Covered
  unfolding tag_of
  covered_own msg epoch blob = record {
    tag_kind = tag_of msg;
    epoch = epoch;
    sender_id = p.my_id;
    receiver_id = p.peer_id;
    blob = blob;
    suite_id = p.suite;
    key_size_bits = p.key_size_bits;
  }

  unfoldable pub covered_peer : HsMsg → ℕ → Bytes → Covered
  unfolding tag_of
  covered_peer msg epoch blob = record {
    tag_kind = tag_of msg;
    epoch = epoch;
    sender_id = p.peer_id;
    receiver_id = p.my_id;
    blob = blob;
    suite_id = p.suite;
    key_size_bits = p.key_size_bits;
  }

  -- The chain and the signature, by the certificate of the node or by the key that is configured.
  unfoldable pub signature_by :
      Option SignIdentity → Option Bytes → Covered → Option (Bytes × Bytes)
  unfolding encode_cert_chain
  signature_by (some id) seed c =
      some (encode_cert_chain id.chain, crypto.sign_handshake_with id.signer c)
  signature_by none none c = none
  signature_by none (some seed) c = elim (crypto.sign_handshake seed c) [
    | none ↦ none
    | some sig ↦ some (encode_cert_chain [], sig)
  ]

  unfoldable pub signed_payload : HsMsg → ℕ → Bytes → Option (Bytes × Bytes) → ℕ × Bytes
  unfolding kinds
  signed_payload msg epoch blob none = ((kinds msg).0, be_bytes 4 epoch ++ blob)
  signed_payload msg epoch blob (some (chain, sig)) =
      ((kinds msg).2, be_bytes 4 epoch ++ (chain ++ (blob ++ sig)))

  unfoldable pub hmac_payload : HsMsg → ℕ → Bytes → Option Bytes → ℕ × Bytes
  unfolding kinds covered_own
  hmac_payload msg epoch blob none = ((kinds msg).0, be_bytes 4 epoch ++ blob)
  hmac_payload msg epoch blob (some psk) = (
    (kinds msg).1,
    be_bytes 4 epoch
        ++ (blob ++ tag crypto.hmac_sha256 crypto.is_same psk (covered_own msg epoch blob)),
  )

  -- The kind and the payload of the frame for a message.
  unfoldable pub payload_by : PqcAuth → HsMsg → ℕ → Bytes → ℕ × Bytes
  unfolding signed_payload signature_by hmac_payload covered_own
  payload_by off msg epoch blob = hmac_payload msg epoch blob none
  payload_by prefer msg epoch blob = hmac_payload msg epoch blob p.psk
  payload_by require msg epoch blob = hmac_payload msg epoch blob p.psk
  payload_by sign msg epoch blob =
      signed_payload msg epoch blob
        (signature_by p.cert_id p.sign_seed (covered_own msg epoch blob))

  unfoldable pub handshake_frame : HsMsg → ℕ → Bytes → Frame
  unfolding payload_by empty
  handshake_frame msg epoch blob =
      let (kind, payload) = payload_by p.auth msg epoch blob in
      record (empty kind) {
        sender_id = p.my_id;
        receiver_id = p.peer_id;
        dest_final = p.peer_id;
        payload = payload;
      }

  -- `taken` is whether the queue takes the frame.
  unfoldable pub send_handshake : (takes : Bool) → HsMsg → ℕ → Bytes → PqcHandshake
  unfolding handshake_frame
  send_handshake true msg epoch blob = record p {
    peer_out = p.peer_out ++ (handshake_frame msg epoch blob ∷ []);
  }
  send_handshake false msg epoch blob = record p { handshake_drops = p.handshake_drops + 1 }

  -- The key that the signature is checked with.
  unfoldable pub key_of_chain : List Bytes → Option Bytes
  key_of_chain [] = p.peer_verify_key
  key_of_chain (c ∷ cs) = elim p.cert_id [
    | none ↦ none
    | some id ↦ crypto.verify_node_cert (c ∷ cs) id.roots p.peer_cert_id
  ]

  unfoldable pub verified_by : HsMsg → ℕ → Bytes → Bytes → Option Bytes → Option (ℕ × Bytes)
  unfolding covered_peer
  verified_by msg epoch blob sig none = none
  verified_by msg epoch blob sig (some key) =
      if crypto.verify_handshake key (covered_peer msg epoch blob) sig
      then some (epoch, blob)
      else none

  unfoldable pub accept_chain : HsMsg → ℕ → Bytes → Option (List Bytes × Bytes) → Option (ℕ × Bytes)
  unfolding verified_by key_of_chain
  accept_chain msg epoch sig none = none
  accept_chain msg epoch sig (some (chain, blob)) =
      verified_by msg epoch blob sig (key_of_chain chain)

  unfoldable pub accept_epoch : HsMsg → Bytes → Option (ℕ × Bytes) → Option (ℕ × Bytes)
  unfolding accept_chain split_cert_chain
  accept_epoch msg sig none = none
  accept_epoch msg sig (some (epoch, after_epoch)) =
      accept_chain msg epoch sig (split_cert_chain after_epoch)

  unfoldable pub accept_signed : HsMsg → Bytes → Option (ℕ × Bytes)
  unfolding accept_epoch split_epoch
  accept_signed msg payload =
      let cut = length payload - signature_len in
      if ltb (length payload) (4 + signature_len)
      then none
      else accept_epoch msg (drop cut payload) (split_epoch (take cut payload))

  unfoldable pub accept_mac : Bytes → HsMsg → Bytes → Option (ℕ × Bytes) → Option (ℕ × Bytes)
  unfolding covered_peer
  accept_mac psk msg mac none = none
  accept_mac psk msg mac (some (epoch, blob)) =
      if verify crypto.hmac_sha256 crypto.is_same psk (covered_peer msg epoch blob) mac
      then some (epoch, blob)
      else none

  unfoldable pub accept_hmac : Option Bytes → HsMsg → Bytes → Option (ℕ × Bytes)
  unfolding accept_mac split_epoch
  accept_hmac none msg payload = none
  accept_hmac (some psk) msg payload =
      let cut = length payload - tag_len in
      if ltb (length payload) (4 + tag_len)
      then none
      else accept_mac psk msg (drop cut payload) (split_epoch (take cut payload))

  unfoldable pub accept : HsMsg → Bytes → RecvAuth → Option (ℕ × Bytes)
  unfolding accept_signed accept_hmac split_epoch requires_auth
  accept msg payload signed = accept_signed msg payload
  accept msg payload hmac = accept_hmac p.psk msg payload
  accept msg payload plain = if requires_auth p.auth p.psk then none else split_epoch payload
