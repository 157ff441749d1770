-- ===== src/Orr/Rotation/Agree.antt =====
-- On a rotation of orr/src/rotation.rs between two routers that reach one another.
use dkms.Prelude.{ℕ, ◌≡◌, refl, ◌∙◌, ap, true, false, String, Option, none, some, length}
use dkms.Prelude.Assoc.{
  string_keys, lookup, lookup-insert_self, some_eq, ◌==◌ as same_text, beq_refl,
}
use dkms.Prelude.Bytes.{Bytes}
use dkms.Prelude.Epochs.{Secrets}
use dkms.Prelude.Outcome.{ok}
use dkms.Orr.Macs.{
  verify_slice, mac_req, mac_resp, mac_fin, verify_mac_req, verify_mac_resp, verify_mac_fin,
}
use dkms.Orr.Peers.{
  PeerRegistry, bootstrap_for, current_send_epoch, send_epoch_for, or_latest,
  set_current_send_epoch, master_for_epoch, set_master_for_epoch, store_ephemeral_sk,
  take_ephemeral_sk, taken, has_ephemeral_sk, drop_old_epochs_for,
}
use dkms.Orr.Peers.Held.{
  IsAhead, master_for_epoch-set, master_for_epoch-set_self, take-store_ephemeral_sk,
  has-take_ephemeral_sk, has-drop_old_epochs_for,
}
use dkms.Orr.Rotation.{
  KeyResponse, SecretRequest, Answer, Environment, next_epoch, authorised, lower_id,
  checked_request, issue, handle_request_ephemeral_key, checked_secret, install, establish,
  handle_establish_ephemeral_secret, or_err, of_mac, refuse_mac,
}
use dkms.Orr.Rotation.Initiator.{
  Remote, received, key_request, secret_request, encapsulate, commit, after_key, rotate_with,
  run_one_rotation,
}

-- The routers `a` and `b` have names in lower case, the suite of the KEM is known, a MAC is taken for
-- itself, and the key pair `(pk, sk)` that `b` draws and the encapsulation that `a` draws give both
-- the secret `ss` of 32 bytes.
pub record AreMatched (env : Environment) (a b : String) (draw_b draw_a : ℕ) (pk sk ct ss : Bytes)
    : Type 0 where
  pub suite : env.has_suite ≡ true
  pub same : (t : Bytes) → env.is_same t t ≡ true
  pub lower_a : env.to_lowercase a ≡ a
  pub lower_b : env.to_lowercase b ≡ b
  pub named_a : same_text a "" ≡ false
  pub named_b : same_text b "" ≡ false
  pub drawn : env.keygen draw_b ≡ some (pk, sk)
  pub sealed : env.encap draw_a pk ≡ some (ct, ss)
  pub opened : env.decap sk ct ≡ some ss
  pub size : length ss ≡ 32

send-set_current_send_epoch :
    (p : PeerRegistry) (orr_id : String) (epoch : ℕ)
    → send_epoch_for (set_current_send_epoch p orr_id epoch) orr_id ≡ some epoch
unfolding send_epoch_for current_send_epoch set_current_send_epoch or_latest
send-set_current_send_epoch p orr_id epoch =
    rw (lookup-insert_self orr_id epoch p.current_send_epochs)

master-set_current_send_epoch :
    (p : PeerRegistry) (orr_id : String) (epoch : ℕ) (x : String) (y : ℕ)
    → master_for_epoch (set_current_send_epoch p orr_id epoch) x y ≡ master_for_epoch p x y
unfolding master_for_epoch set_current_send_epoch
master-set_current_send_epoch p orr_id epoch x y = refl

master_secrets-taken :
    (p : PeerRegistry) (orr_id : String) (epoch : ℕ) (o : Option Secrets)
    → (taken p orr_id epoch o).0.master_secrets ≡ p.master_secrets
unfolding taken
master_secrets-taken p orr_id epoch none = refl
master_secrets-taken p orr_id epoch (some m) = refl

master_secrets-take :
    (p : PeerRegistry) (orr_id : String) (epoch : ℕ) (sk : Bytes)
    → (take_ephemeral_sk (store_ephemeral_sk p orr_id epoch sk) orr_id epoch).0.master_secrets
      ≡ p.master_secrets
unfolding take_ephemeral_sk store_ephemeral_sk
master_secrets-take p orr_id epoch sk =
    let q = store_ephemeral_sk p orr_id epoch sk in
    master_secrets-taken q orr_id epoch (lookup orr_id q.ephemeral_sks)

has-set_master_for_epoch :
    (p : PeerRegistry) (orr_id : String) (epoch : ℕ) (secret : Bytes) (x : String) (y : ℕ)
    → has_ephemeral_sk (set_master_for_epoch p orr_id epoch secret) x y ≡ has_ephemeral_sk p x y
unfolding has_ephemeral_sk set_master_for_epoch
has-set_master_for_epoch p orr_id epoch secret x y = refl

module _ (env : Environment) (a b : String) (draw_b draw_a : ℕ) (pk sk ct ss : Bytes)
    (m : AreMatched env a b draw_b draw_a pk sk ct ss) where
  verified :
      (s message : Bytes) → verify_slice env.hmac env.is_same s message (env.hmac s message) ≡ ok tt
  unfolding verify_slice
  verified s message = rw (m.same (env.hmac s message))

  authorised_lem :
      (p : PeerRegistry) (s : Bytes) → bootstrap_for p a ≡ some s → authorised env p b a b ≡ ok s
  unfolding authorised or_err
  authorised_lem p s h = rw (m.named_a, m.named_b, beq_refl b, h)

  answer_key : (s : Bytes) (epoch : ℕ) → KeyResponse
  answer_key s epoch = record {
    ephemeral_pubkey = pk;
    mac = mac_resp env.hmac env.is_same s epoch (env.as_bytes a) (env.as_bytes b) pk;
  }

  -- The request is answered with the public key, and the other half is kept.
  handled_key :
      (p : PeerRegistry) (s : Bytes) (epoch : ℕ)
      → bootstrap_for p a ≡ some s
      → handle_request_ephemeral_key env p b draw_b (key_request env a b s epoch)
        ≡ (store_ephemeral_sk p a epoch sk, ok (answer_key s epoch))
  unfolding handle_request_ephemeral_key lower_id checked_request key_request issue refuse_mac
      or_err verify_mac_req mac_req answer_key
  handled_key p s epoch h =
      rw (m.lower_a, m.lower_b, authorised_lem p s h, verified s, m.suite, m.drawn)

  encapsulated :
      (s : Bytes) (epoch : ℕ)
      → encapsulate env a b s epoch draw_a (answer_key s epoch) ≡ ok (ct, ss)
  unfolding encapsulate of_mac or_err answer_key verify_mac_resp mac_resp
  encapsulated s epoch = rw (verified s, m.suite, m.sealed, m.size)

  installed :
      (r : SecretRequest) (keep : ℕ) (q : PeerRegistry × Option Bytes)
      → r.ciphertext ≡ ct
      → q.1 ≡ some sk
      → install env r a keep q
        ≡ (drop_old_epochs_for (set_master_for_epoch q.0 a r.epoch_id ss) a keep, ok tt)
  unfolding install
  installed r keep (q, none) c t = cc
  installed r keep (q, some esk) c t = rw (some_eq t, c, m.suite, m.opened, m.size)

  handled_secret :
      (p : PeerRegistry) (s : Bytes) (epoch keep : ℕ)
      → bootstrap_for p a ≡ some s
      → (take_ephemeral_sk p a epoch).1 ≡ some sk
      → handle_establish_ephemeral_secret env p b keep (secret_request env a b s epoch ct) ≡ (
        drop_old_epochs_for
            (set_master_for_epoch (take_ephemeral_sk p a epoch).0 a epoch ss)
            a
            keep,
        ok tt,
      )
  unfolding handle_establish_ephemeral_secret lower_id checked_secret secret_request establish
      refuse_mac verify_mac_fin mac_fin
  handled_secret p s epoch keep h t =
      rw (m.lower_a, m.lower_b, authorised_lem p s h, verified s)
        (installed (secret_request env a b s epoch ct) keep (take_ephemeral_sk p a epoch) refl t)

  -- What `b` has done with the request.
  abbrev pub asked : PeerRegistry → (s : Bytes) (epoch : ℕ) → PeerRegistry
  asked p s epoch = (handle_request_ephemeral_key env p b draw_b (key_request env a b s epoch)).0

  -- `b` answers with its handlers, and nothing else changes the registry of `a` meanwhile.
  abbrev pub answering : PeerRegistry → (s : Bytes) (epoch keep : ℕ) → Remote
  answering p s epoch keep = record {
    on_key = λ r. some (handle_request_ephemeral_key env p b draw_b r).1;
    on_secret = λ r. some (handle_establish_ephemeral_secret env (asked p s epoch) b keep r).1;
    before_key = λ q. q;
    before_secret = λ q. q;
  }

  peer_after :
      (p : PeerRegistry) (s : Bytes) (epoch keep : ℕ)
      → bootstrap_for p a ≡ some s
      → IsAhead epoch (lookup a p.ephemeral_sks)
      → let stored = store_ephemeral_sk p a epoch sk in
        handle_establish_ephemeral_secret env
          (asked p s epoch)
          b
          keep
          (secret_request env a b s epoch ct)
        ≡ (
          drop_old_epochs_for
              (set_master_for_epoch (take_ephemeral_sk stored a epoch).0 a epoch ss)
              a
              keep,
          ok tt,
        )
  unfolding bootstrap_for store_ephemeral_sk
  peer_after p s epoch keep h ahead =
      let kept : bootstrap_for (store_ephemeral_sk p a epoch sk) a ≡ some s = h in
      ap
        (λ (q : PeerRegistry × Answer KeyResponse).
          handle_establish_ephemeral_secret env q.0 b keep (secret_request env a b s epoch ct))
        (handled_key p s epoch h)
      ∙ handled_secret (store_ephemeral_sk p a epoch sk) s epoch keep kept
          (take-store_ephemeral_sk p a epoch sk ahead)

  own_after :
      (pa pb : PeerRegistry) (s : Bytes) (keep : ℕ)
      → bootstrap_for pa b ≡ some s
      → bootstrap_for pb a ≡ some s
      → IsAhead (next_epoch (current_send_epoch pa b)) (lookup a pb.ephemeral_sks)
      → let epoch = next_epoch (current_send_epoch pa b) in
        run_one_rotation env a b (answering pb s epoch keep) pa draw_a
        ≡ (set_current_send_epoch (set_master_for_epoch pa b epoch ss) b epoch, ok epoch)
  unfolding run_one_rotation rotate_with received after_key commit
  own_after pa pb s keep ha hb ahead =
      let epoch = next_epoch (current_send_epoch pa b) in
      rw (ha, handled_key pb s epoch hb, encapsulated s epoch)
        (rw (peer_after pb s epoch keep hb ahead))

  -- A rotation to the epoch succeeds: both hold the secret for that epoch, `a` sends with it, and `b`
  -- has no longer the key that would decapsulate it.
  abbrev pub AreAgreed : PeerRegistry → PeerRegistry → (s : Bytes) (keep epoch : ℕ) → Type 0
  AreAgreed pa pb s keep epoch =
      let after = run_one_rotation env a b (answering pb s epoch keep) pa draw_a in
      let peer =
        (handle_establish_ephemeral_secret env (asked pb s epoch) b keep
          (secret_request env a b s epoch ct)).0 in
      (after.1 ≡ ok epoch)
      × (send_epoch_for after.0 b ≡ some epoch)
      × (master_for_epoch after.0 b epoch ≡ some ss)
      × (master_for_epoch peer a epoch ≡ some ss)
      × (has_ephemeral_sk peer a epoch ≡ false)

  -- Two routers whose names are in lower case and not empty, with a key pair and an encapsulation
  -- that give both ends a secret of 32 bytes, and a MAC that is taken for itself: where they share
  -- a bootstrap secret, and `b` holds for `a` only epochs below the one that `a` takes next, a
  -- rotation succeeds. Both hold the new secret for that epoch, `a` sends with it, and `b` has no
  -- longer the key that would decapsulate it.
  pub rotation_agrees :
      (pa pb : PeerRegistry) (s : Bytes) (keep : ℕ)
      → bootstrap_for pa b ≡ some s
      → bootstrap_for pb a ≡ some s
      → IsAhead (next_epoch (current_send_epoch pa b)) (lookup a pb.master_secrets)
      → IsAhead (next_epoch (current_send_epoch pa b)) (lookup a pb.ephemeral_sks)
      → AreAgreed pa pb s keep (next_epoch (current_send_epoch pa b))
  rotation_agrees pa pb s keep ha hb masters keys =
      let epoch = next_epoch (current_send_epoch pa b) in
      let own = own_after pa pb s keep ha hb keys in
      let peer = peer_after pb s epoch keep hb keys in
      let held = set_master_for_epoch pa b epoch ss in
      let q = (take_ephemeral_sk (store_ephemeral_sk pb a epoch sk) a epoch).0 in
      let ahead : IsAhead epoch (lookup a q.master_secrets) =
        rw (master_secrets-take pb a epoch sk) masters in
      let gone =
        has-set_master_for_epoch q a epoch ss a epoch
        ∙ has-take_ephemeral_sk (store_ephemeral_sk pb a epoch sk) a epoch in
      (
        rw own,
        rw own (send-set_current_send_epoch held b epoch),
        rw own (
            master-set_current_send_epoch held b epoch b epoch
            ∙ master_for_epoch-set_self pa b epoch ss),
        rw peer (master_for_epoch-set q a epoch keep ss ahead),
        rw peer (has-drop_old_epochs_for (set_master_for_epoch q a epoch ss) a epoch keep gone),
      )
