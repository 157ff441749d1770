-- ===== src/Qkc/Handshake/Accept.antt =====
-- On what the handshake of qkc/src/pqc_handshake.rs accepts.
use dkms.Prelude.{
  ℕ, ◌+◌, ◌-◌, ◌^◌, ◌<◌, ◌≡◌, ◌⊎◌, inl, inr, refl, subst, sym, ◌∙◌, Bool, true, false, some, ◌++◌,
  arith, length, ltb, ltb-false, length-append, take-append, drop-append, append_assoc,
}
use dkms.Prelude.Bytes.{Bytes, be_bytes, length-be_bytes, from_be-be_bytes}
use dkms.Wire.Frame.{empty}
use dkms.Qkc.LinkMac.{tag_len, Covered, message, tag, verify}
use dkms.Qkc.Handshake.{
  prefer, require, HsMsg, plain, hmac, PqcHandshake, Crypto, split_epoch, requires_auth,
}
use dkms.Qkc.Handshake.Messages.{
  covered_own, covered_peer, payload_by, hmac_payload, handshake_frame, accept, accept_mac,
  accept_hmac,
}
use dkms.Qkc.Handshake.Handlers.{
  handle_init, init_accepted, handle_resp, resp_accepted, handle_resync_request, resync_accepted,
}

split_epoch-be_bytes :
    (epoch : ℕ) (blob : Bytes)
    → epoch < 2 ^ 32
    → split_epoch (be_bytes 4 epoch ++ blob) ≡ some (epoch, blob)
unfolding split_epoch
split_epoch-be_bytes epoch blob h = rw (
  ltb-false (length (be_bytes 4 epoch ++ blob)) 4
      (omega (arith, length-append (be_bytes 4 epoch) blob, length-be_bytes 4 epoch)),
  take-append (be_bytes 4 epoch) blob {n = 4} (length-be_bytes 4 epoch),
  drop-append (be_bytes 4 epoch) blob {n = 4} (length-be_bytes 4 epoch),
  from_be-be_bytes 4 epoch (omega (arith, h)),
)

module _ (crypto : Crypto) where
  -- The two ends of a link with the same PSK, suite and size of a key, and an HMAC of 32 bytes that is
  -- taken for itself.
  pub record AreLinked (p q : PqcHandshake) (psk : Bytes) : Type 0 where
    pub sender : q.peer_id ≡ p.my_id
    pub receiver : q.my_id ≡ p.peer_id
    pub suite : q.suite ≡ p.suite
    pub bits : q.key_size_bits ≡ p.key_size_bits
    pub own_psk : p.psk ≡ some psk
    pub peer_psk : q.psk ≡ some psk
    pub policy : (p.auth ≡ prefer) ⊎ (p.auth ≡ require)
    pub tag_size : (m : Bytes) → length (crypto.hmac_sha256 psk m) ≡ tag_len
    pub tag_same : (m : Bytes) → crypto.is_same m m ≡ true

  -- With a policy that wants authentication, a frame in clear changes nothing.
  pub plain_refused :
      (p : PqcHandshake) (takes : Bool) (draw : ℕ) (payload : Bytes)
      → requires_auth p.auth p.psk ≡ true
      → (handle_init crypto p takes draw payload plain ≡ p)
        × (handle_resp crypto p payload plain ≡ p)
        × (handle_resync_request crypto p payload plain ≡ p)
  unfolding handle_init handle_resp handle_resync_request accept init_accepted resp_accepted
      resync_accepted
  plain_refused p takes draw payload h = (rw h, rw h, rw h)

  accept-split :
      (q : PqcHandshake) (psk : Bytes) (msg : HsMsg) (epoch blob mac : Bytes)
      → length epoch ≡ 4
      → length mac ≡ tag_len
      → accept_hmac crypto q (some psk) msg (epoch ++ (blob ++ mac))
        ≡ accept_mac crypto q psk msg mac (split_epoch (epoch ++ blob))
  unfolding accept_hmac
  accept-split q psk msg epoch blob mac e m =
      let cut : length (epoch ++ (blob ++ mac)) - tag_len ≡ length (epoch ++ blob) = omega (
        arith,
        length-append epoch (blob ++ mac),
        length-append blob mac,
        length-append epoch blob,
        m,
      ) in
      let long : ltb (length (epoch ++ (blob ++ mac))) (4 + tag_len) ≡ false =
        ltb-false _ _
          (omega (arith, length-append epoch (blob ++ mac), length-append blob mac, e, m)) in
      rw (long, cut, sym (append_assoc epoch blob mac))
        (rw (
          take-append (epoch ++ blob) mac {n = length (epoch ++ blob)} refl,
          drop-append (epoch ++ blob) mac {n = length (epoch ++ blob)} refl,
        ))

  module _ (p q : PqcHandshake) (psk : Bytes) (l : AreLinked p q psk) where
    same_covered :
        (msg : HsMsg) (epoch : ℕ) (blob : Bytes)
        → covered_peer crypto q msg epoch blob ≡ covered_own crypto p msg epoch blob
    unfolding covered_peer covered_own
    same_covered msg epoch blob = rw (l.sender, l.receiver, l.suite, l.bits)

    tag_verified :
        (c : Covered)
        → verify crypto.hmac_sha256 crypto.is_same psk c
            (tag crypto.hmac_sha256 crypto.is_same psk c)
          ≡ true
    unfolding verify tag
    tag_verified c = l.tag_same (crypto.hmac_sha256 psk (message c))

    accept-tag :
        (msg : HsMsg) (epoch : ℕ) (blob mac : Bytes)
        → mac ≡ tag crypto.hmac_sha256 crypto.is_same psk (covered_own crypto p msg epoch blob)
        → epoch < 2 ^ 32
        → accept crypto q msg (be_bytes 4 epoch ++ (blob ++ mac)) hmac ≡ some (epoch, blob)
    unfolding accept tag
    accept-tag msg epoch blob mac e h =
        let c = covered_own crypto p msg epoch blob in
        let verifies = verify crypto.hmac_sha256 crypto.is_same psk in
        let checked : verifies (covered_peer crypto q msg epoch blob) mac ≡ true =
          subst (λ d. verifies d mac ≡ true) (sym (same_covered msg epoch blob))
            (subst (λ t. verifies c t ≡ true) (sym e) (tag_verified c)) in
        rw l.peer_psk (
          accept-split q psk msg (be_bytes 4 epoch) blob mac (length-be_bytes 4 epoch)
            (rw (e, tag) (l.tag_size (message c)))
          ∙ rw (split_epoch-be_bytes epoch blob h, accept_mac, checked))

    payload-linked :
        (msg : HsMsg) (epoch : ℕ) (blob : Bytes)
        → (handshake_frame crypto p msg epoch blob).payload
          ≡ be_bytes 4 epoch
            ++ (blob
                ++ tag crypto.hmac_sha256 crypto.is_same psk (covered_own crypto p msg epoch blob))
    unfolding handshake_frame payload_by hmac_payload empty
    payload-linked msg epoch blob = elim l.policy [
      | inl e ↦ rw (e, l.own_psk)
      | inr e ↦ rw (e, l.own_psk)
    ]

    -- What one end makes of a message the other one accepts as that message.
    pub accept-handshake_frame :
        (msg : HsMsg) (epoch : ℕ) (blob : Bytes)
        → epoch < 2 ^ 32
        → accept crypto q msg (handshake_frame crypto p msg epoch blob).payload hmac
          ≡ some (epoch, blob)
    accept-handshake_frame msg epoch blob h =
        rw (payload-linked msg epoch blob) (accept-tag msg epoch blob _ refl h)
