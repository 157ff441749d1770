-- ===== src/Orr/Bootstrap/Agree.antt =====
-- On the first secret that two routers share, by orr/src/bootstrap.rs, and their first rotation.
use dkms.Prelude.{
  ℕ, ◌≡◌, subst, sym, Bool, true, false, String, Option, none, some, List, [], length, arith,
}
use dkms.Prelude.Assoc.{
  string_keys, lookup, remove, lookup-insert_self, lookup-remove_self, ◌==◌ as same_text,
}
use dkms.Prelude.Bytes.{Bytes}
use dkms.Prelude.Epochs.{put, last_epoch}
use dkms.Prelude.Outcome.{Outcome, ok}
use dkms.Orr.Peers.{
  PeerRegistry, bootstrap_for, current_send_epoch, send_epoch_for, or_latest, latest_epoch_for,
  last_in, found_in, or_default, master_for_epoch, set_master_for_epoch, reset_for_bootstrap,
  put_pubkey, qkc_id, is_held,
}
use dkms.Orr.Peers.Held.{IsAhead}
use dkms.Orr.Rotation.{Environment, or_err, lower_id, next_epoch}
use dkms.Orr.Rotation.Agree.{AreMatched, AreAgreed, rotation_agrees}
use dkms.Orr.Bootstrap.{
  EstablishRefusal, BootstrapError, EstablishRequest, Fetched, require_from_matches_peer,
  checked_establish, stored, handle_establish_secret, fresh_pubkey, confirmed, attempt_establish,
  adopt, rebootstrap_with, rebootstrap,
}

module _ (p : PeerRegistry) (orr_id : String) (secret : Bytes) where
  bootstrap-reset : bootstrap_for (reset_for_bootstrap p orr_id secret) orr_id ≡ some secret
  unfolding bootstrap_for reset_for_bootstrap set_master_for_epoch
  bootstrap-reset = lookup-insert_self orr_id secret p.bootstrap_secrets

  current-reset : current_send_epoch (reset_for_bootstrap p orr_id secret) orr_id ≡ none
  unfolding current_send_epoch reset_for_bootstrap set_master_for_epoch
  current-reset = lookup-remove_self orr_id p.current_send_epochs

  masters-reset :
      lookup orr_id (reset_for_bootstrap p orr_id secret).master_secrets ≡ some (put 0 secret [])
  unfolding reset_for_bootstrap set_master_for_epoch or_default
  masters-reset =
      rw (lookup-remove_self orr_id p.master_secrets)
        (lookup-insert_self orr_id (put 0 secret []) (remove orr_id p.master_secrets))

  keys-reset : lookup orr_id (reset_for_bootstrap p orr_id secret).ephemeral_sks ≡ none
  unfolding reset_for_bootstrap set_master_for_epoch
  keys-reset = lookup-remove_self orr_id p.ephemeral_sks

  send-reset : send_epoch_for (reset_for_bootstrap p orr_id secret) orr_id ≡ some 0
  unfolding send_epoch_for or_latest latest_epoch_for last_in put last_epoch
  send-reset = rw (current-reset, masters-reset)

  master-reset : master_for_epoch (reset_for_bootstrap p orr_id secret) orr_id 0 ≡ some secret
  unfolding master_for_epoch found_in put lookup
  master-reset = rw masters-reset

  first_epoch_lem : next_epoch (current_send_epoch (reset_for_bootstrap p orr_id secret) orr_id) ≡ 1
  unfolding next_epoch
  first_epoch_lem = rw current-reset

  ahead_lem : IsAhead 1 (some (put 0 secret []))
  unfolding put or_default
  ahead_lem = (omega arith, tt)

  -- The secret is the one of the bootstrap and of epoch 0, which is sent with.
  abbrev pub HasOnly : PeerRegistry → Type 0
  HasOnly q =
      (bootstrap_for q orr_id ≡ some secret)
      × (send_epoch_for q orr_id ≡ some 0)
      × (master_for_epoch q orr_id 0 ≡ some secret)

  reset-HasOnly : HasOnly (reset_for_bootstrap p orr_id secret)
  reset-HasOnly = (bootstrap-reset, send-reset, master-reset)

module _ (to_ascii_lowercase : String → String) (node_id_from_certs : List Bytes → Option String)
    (verify_node_cert : List Bytes → Bytes → String → Option Bytes)
    (verify_orr_pubkey : Bytes → String → String → Bytes → Bytes → Bool) (env : Environment)
    (a b : String) (pa pb : PeerRegistry) (certs : Option (List Bytes)) (draw : ℕ)
    (pk sk ct ss : Bytes) where
  -- The name of `a` is in lower case, `b` knows `a`, the certificate of the call, if there is one,
  -- names `a`, and what `a` encapsulates to the key of `b` gives `b` the secret of 32 bytes.
  pub record AreJoined : Type 0 where
    pub suite : env.has_suite ≡ true
    pub sealed : env.encap draw pk ≡ some (ct, ss)
    pub opened : env.decap sk ct ≡ some ss
    pub size : length ss ≡ 32
    pub lower : env.to_lowercase a ≡ a
    pub named : same_text a "" ≡ false
    pub known : is_held (qkc_id pb a) ≡ true
    pub certified : require_from_matches_peer to_ascii_lowercase node_id_from_certs certs a ≡ true

  -- What `b` does with a request.
  abbrev pub handled : EstablishRequest → PeerRegistry × Outcome EstablishRefusal (Unit {0})
  handled m = handle_establish_secret to_ascii_lowercase node_id_from_certs env pb sk certs m

  abbrev pub establish_request : EstablishRequest
  establish_request = record { from = some a; ciphertext = ct }

  handled_lem : AreJoined → handled establish_request ≡ (reset_for_bootstrap pb a ss, ok tt)
  unfolding handle_establish_secret checked_establish stored lower_id or_err
  handled_lem j = rw (j.lower, j.named, j.certified, j.known, j.opened, j.size)

  abbrev pub rebootstrapped :
      (PeerRegistry → PeerRegistry)
      → Option Fetched
      → PeerRegistry × Outcome BootstrapError (Unit {0})
  rebootstrapped meanwhile answer =
      rebootstrap verify_node_cert verify_orr_pubkey env b a (λ m. some (handled m).1) meanwhile pa
        draw answer

  abbrev checked : Option Fetched → Outcome BootstrapError Bytes
  checked answer =
      fresh_pubkey verify_node_cert verify_orr_pubkey env b a (λ m. some (handled m).1) pa answer

  attempt_lem :
      (on_establish : EstablishRequest → Option (Outcome EstablishRefusal (Unit {0})))
      → AreJoined
      → on_establish establish_request ≡ some (ok tt)
      → attempt_establish verify_node_cert verify_orr_pubkey env b a on_establish draw pk ≡ ok ss
  unfolding attempt_establish confirmed or_err
  attempt_lem on_establish j h = rw (j.suite, j.sealed, j.size, h)

  rebootstrap_lem :
      (meanwhile : PeerRegistry → PeerRegistry) (answer : Option Fetched)
      → AreJoined
      → checked answer ≡ ok pk
      → rebootstrapped meanwhile answer
        ≡ (reset_for_bootstrap (meanwhile (put_pubkey pa b pk)) b ss, ok tt)
  unfolding rebootstrap rebootstrap_with adopt
  rebootstrap_lem meanwhile answer j c =
      let answered : some (handled establish_request).1 ≡ some (ok tt) = rw (handled_lem j) in
      rw (c, attempt_lem (λ m. some (handled m).1) j answered)

  -- Where `b` knows `a`, whose name is in lower case and not empty and is the one of the
  -- certificate, if there is one, where `a` takes the key that it fetches of `b`, and where the
  -- encapsulation to that key gives both ends a secret of 32 bytes, a bootstrap anew succeeds,
  -- whatever else is done to the registry of `a` meanwhile: both have the same secret, as that of
  -- the bootstrap and of epoch 0, and send with that epoch, whatever they had before.
  pub bootstrap_agrees :
      (meanwhile : PeerRegistry → PeerRegistry) (answer : Option Fetched)
      → AreJoined
      → checked answer ≡ ok pk
      → ((rebootstrapped meanwhile answer).1 ≡ ok tt)
        × HasOnly pa b ss (rebootstrapped meanwhile answer).0
        × HasOnly pb a ss (handled establish_request).0
  bootstrap_agrees meanwhile answer j c =
      let own = rebootstrap_lem meanwhile answer j c in
      let q = meanwhile (put_pubkey pa b pk) in
      (
        rw own,
        subst (λ (r : PeerRegistry × Outcome BootstrapError (Unit {0})). HasOnly pa b ss r.0)
            (sym own) (reset-HasOnly q b ss),
        subst (λ (r : PeerRegistry × Outcome EstablishRefusal (Unit {0})). HasOnly pb a ss r.0)
            (sym (handled_lem j)) (reset-HasOnly pb a ss),
      )

-- After a bootstrap with one secret at both ends, the first rotation of two routers as in
-- `rotation_agrees` succeeds, whatever they held before: it takes epoch 1, `a` sends with it, both
-- hold its secret, and `b` has no longer the key that would decapsulate it.
pub first_rotation_agrees :
    (env : Environment) (a b : String) (draw_b draw_a : ℕ) (pk sk ct ss : Bytes)
    (m : AreMatched env a b draw_b draw_a pk sk ct ss) (pa pb : PeerRegistry) (s : Bytes) (keep : ℕ)
    → AreAgreed env a b draw_b draw_a pk sk ct ss m
        (reset_for_bootstrap pa b s)
        (reset_for_bootstrap pb a s)
        s
        keep
        1
unfolding or_default
first_rotation_agrees env a b draw_b draw_a pk sk ct ss m pa pb s keep =
    let qa = reset_for_bootstrap pa b s in
    let qb = reset_for_bootstrap pb a s in
    let first : next_epoch (current_send_epoch qa b) ≡ 1 = first_epoch_lem pa b s in
    subst (AreAgreed env a b draw_b draw_a pk sk ct ss m qa qb s keep) first (
      rotation_agrees env a b draw_b draw_a pk sk ct ss m qa qb s keep (bootstrap-reset pa b s)
        (bootstrap-reset pb a s) (rw (first, masters-reset pb a s) (ahead_lem pb a s))
        (rw (first, keys-reset pb a s) tt))
