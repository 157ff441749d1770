-- ===== src/Orr/Rotation/Once.antt =====
-- On the ephemeral keys of the handlers of orr/src/rotation.rs: one key opens one message.
use dkms.Prelude.{
  ℕ, ◌≡◌, ◌≢◌, ◌⊎◌, String, Option, none, some, List, [], ◌∷◌, length, not, ◌==◌, inl, inr,
  Option-cases, choose,
}
use dkms.Prelude.Bytes.{Bytes}
use dkms.Prelude.Outcome.{ok, err, panic}
use dkms.Orr.Peers.{PeerRegistry, take_ephemeral_sk, set_master_for_epoch}
use dkms.Orr.Peers.Gone.{
  IsGone, take-IsGone, drop_old_epochs_for-IsGone, store-IsGone, take-IsGone_self, take_gone,
}
use dkms.Orr.Rotation.{
  KeyRequest, SecretRequest, Answer, Environment, lower_id, checked_request, issue,
  handle_request_ephemeral_key, checked_secret, install, establish,
  handle_establish_ephemeral_secret,
}

-- A message that the handlers receive.
pub data Call : Type 0 where
  key : (draw : ℕ) → KeyRequest → Call
  secret : SecretRequest → Call

module _ (env : Environment) (local_orr_id : String) (keep : ℕ) where
  unfoldable pub after_call : PeerRegistry → Call → PeerRegistry
  after_call p (key draw m) = (handle_request_ephemeral_key env p local_orr_id draw m).0
  after_call p (secret m) = (handle_establish_ephemeral_secret env p local_orr_id keep m).0

  unfoldable pub after_calls : PeerRegistry → List Call → PeerRegistry
  unfolding after_call
  after_calls p [] = p
  after_calls p (c ∷ cs) = after_calls (after_call p c) cs

  -- No key is asked for by the router and for the epoch.
  unfoldable pub AreOther : String → ℕ → List Call → Type 0
  AreOther x y [] = Unit {0}
  AreOther x y (key draw m ∷ cs) = ((lower_id env m.from ≢ x) ⊎ (m.epoch_id ≢ y)) × AreOther x y cs
  AreOther x y (secret m ∷ cs) = AreOther x y cs

  no_key_refused :
      (m : SecretRequest) (from : String) (q : PeerRegistry × Option Bytes)
      → q.1 ≡ none
      → (install env m from keep q).1 ≢ ok tt
  unfolding install
  no_key_refused m from (p, none) e = λ h. cc
  no_key_refused m from (p, some esk) e = cc

  gone_refused :
      (p : PeerRegistry) (m : SecretRequest) (from : String) (a : Answer (Unit {0}))
      → IsGone from m.epoch_id p.ephemeral_sks
      → (establish env p m from keep a).1 ≢ ok tt
  unfolding establish
  gone_refused p m from panic g = λ h. cc
  gone_refused p m from (err r) g = λ h. cc
  gone_refused p m from (ok u) g =
      let q = take_ephemeral_sk p from m.epoch_id in
      no_key_refused m from q (take_gone p from m.epoch_id g)

  module _ (x : String) (y : ℕ) where
    install-IsGone :
        (m : SecretRequest) (from : String) (q : PeerRegistry × Option Bytes)
        → IsGone x y q.0.ephemeral_sks
        → IsGone x y (install env m from keep q).0.ephemeral_sks
    unfolding install set_master_for_epoch
    install-IsGone m from (p, none) g = g
    install-IsGone m from (p, some esk) g =
        let P : PeerRegistry × Answer (Unit {0}) → Type 0 = λ r. IsGone x y r.0.ephemeral_sks in
        choose (not env.has_suite) P (λ _. g)
          (λ _. elim (Option-cases (env.decap esk m.ciphertext)) [
            | inl n ↦ rw n g
            | inr (ss, h) ↦ rw h (
                choose (not (length ss == 32)) P (λ _. g)
                  (λ _.
                    drop_old_epochs_for-IsGone x y (set_master_for_epoch p from m.epoch_id ss) from
                      keep g))
          ])

    establish-IsGone :
        (p : PeerRegistry) (m : SecretRequest) (from : String) (a : Answer (Unit {0}))
        → IsGone x y p.ephemeral_sks
        → IsGone x y (establish env p m from keep a).0.ephemeral_sks
    unfolding establish
    establish-IsGone p m from panic g = g
    establish-IsGone p m from (err r) g = g
    establish-IsGone p m from (ok u) g =
        install-IsGone m from (take_ephemeral_sk p from m.epoch_id)
          (take-IsGone x y p from m.epoch_id g)

    issue-IsGone :
        (p : PeerRegistry) (m : KeyRequest) (from peer : String)
        (a : Answer (Bytes × Bytes × Bytes))
        → (from ≢ x) ⊎ (m.epoch_id ≢ y)
        → IsGone x y p.ephemeral_sks
        → IsGone x y (issue env p m from peer a).0.ephemeral_sks
    unfolding issue
    issue-IsGone p m from peer panic n g = g
    issue-IsGone p m from peer (err r) n g = g
    issue-IsGone p m from peer (ok (b, public, esk)) n g =
        store-IsGone x y p from m.epoch_id esk n g

    calls-IsGone :
        (p : PeerRegistry) (cs : List Call)
        → AreOther x y cs
        → IsGone x y p.ephemeral_sks
        → IsGone x y (after_calls p cs).ephemeral_sks
    unfolding after_calls after_call AreOther handle_request_ephemeral_key
        handle_establish_ephemeral_secret
    calls-IsGone p [] o g = g
    calls-IsGone p (key draw m ∷ cs) o g =
        let from = lower_id env m.from in
        let peer = lower_id env m.peer in
        calls-IsGone (after_call p (key draw m)) cs o.1
          (issue-IsGone p m from peer (checked_request env p local_orr_id draw m from peer) o.0 g)
    calls-IsGone p (secret m ∷ cs) o g =
        let from = lower_id env m.from in
        let peer = lower_id env m.peer in
        calls-IsGone (after_call p (secret m)) cs o
          (establish-IsGone p m from (checked_secret env p local_orr_id m from peer) g)

  establish-IsGone_self :
      (p : PeerRegistry) (m : SecretRequest) (from : String) (a : Answer (Unit {0}))
      → (establish env p m from keep a).1 ≡ ok tt
      → IsGone from m.epoch_id (establish env p m from keep a).0.ephemeral_sks
  unfolding establish
  establish-IsGone_self p m from panic h = cc
  establish-IsGone_self p m from (err r) h = cc
  establish-IsGone_self p m from (ok u) h =
      install-IsGone from m.epoch_id m from (take_ephemeral_sk p from m.epoch_id)
        (take-IsGone_self p from m.epoch_id)

  -- Once a message that establishes a secret was taken from a router for an epoch, no such message
  -- from that router for that epoch is taken, whatever calls come in between, as long as that
  -- router asks for no key of that epoch again.
  pub secret_once :
      (p : PeerRegistry) (m again : SecretRequest) (cs : List Call)
      → (handle_establish_ephemeral_secret env p local_orr_id keep m).1 ≡ ok tt
      → AreOther (lower_id env m.from) m.epoch_id cs
      → lower_id env again.from ≡ lower_id env m.from
      → again.epoch_id ≡ m.epoch_id
      → (handle_establish_ephemeral_secret env
          (after_calls (after_call p (secret m)) cs)
          local_orr_id
          keep
          again).1
        ≢ ok tt
  unfolding handle_establish_ephemeral_secret after_call
  secret_once p m again cs h other same_from same_epoch =
      let from = lower_id env m.from in
      let peer = lower_id env m.peer in
      let gone =
        calls-IsGone from m.epoch_id (after_call p (secret m)) cs other
          (establish-IsGone_self p m from (checked_secret env p local_orr_id m from peer) h) in
      let q = after_calls (after_call p (secret m)) cs in
      let gone_again : IsGone (lower_id env again.from) again.epoch_id q.ephemeral_sks =
        rw (same_from, same_epoch) gone in
      let from' = lower_id env again.from in
      let peer' = lower_id env again.peer in
      gone_refused q again from' (checked_secret env q local_orr_id again from' peer') gone_again
