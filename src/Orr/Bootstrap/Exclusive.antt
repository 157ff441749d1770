-- ===== src/Orr/Bootstrap/Exclusive.antt =====
-- On the flag that keeps the three ways to establish a secret with a peer apart: the rounds of
-- orr/src/bootstrap.rs and orr/src/rotation.rs, and the task of orr/src/service.rs.
use dkms.Prelude.{ℕ, ◌≡◌, ◌≢◌, ◌⊎◌, refl, Bool, true, false, String, Option, none, inl, inr, choose}
use dkms.Prelude.Assoc.{string_keys, lookup, insert, lookup-remove_self}
use dkms.Prelude.Bytes.{Bytes}
use dkms.Prelude.Outcome.{Outcome, ok, err, panic}
use dkms.Orr.Peers.{
  PeerRegistry, grpc_addr, is_held, has_bootstrap, reset_for_bootstrap, set_master_for_epoch,
}
use dkms.Orr.Peers.Flags.{
  or_false, try_mark_rebootstrap_inflight, clear_rebootstrap_inflight, should_attempt_rebootstrap,
  mark_rebootstrap_failure, clear_rebootstrap_failure,
}
use dkms.Orr.Rotation.{RotationError}
use dkms.Orr.Rotation.Initiator.{
  Round, Next, wait, retry, backoff, paused, released, after_rotation, in_turn, round,
}
use dkms.Orr.Bootstrap.{BootstrapError}
use dkms.Orr.Bootstrap.Peer.{Turn, attempted, after_attempt, establish_round}
use dkms.Orr.Bootstrap.Passive.{
  passive_rebootstrap_min_interval, marked, trigger_passive_rebootstrap, refreshed, settled,
  passive_rebootstrap,
}

module _ (peer_id : String) where
  unfoldable pub is_busy : PeerRegistry → Bool
  is_busy p = or_false (lookup peer_id p.rebootstrap_inflight)

  pub mark_busy :
      (p : PeerRegistry) → is_busy p ≡ true → try_mark_rebootstrap_inflight p peer_id ≡ (p, false)
  unfolding try_mark_rebootstrap_inflight is_busy
  mark_busy p h = rw h

  module _ (keep : ℕ) (rebootstrap : PeerRegistry → PeerRegistry × Bool)
      (rotate : PeerRegistry → PeerRegistry × Outcome RotationError ℕ)
      (meanwhile : PeerRegistry → PeerRegistry) (attempt : Outcome BootstrapError Bytes) where
    -- While the flag of a peer is taken, neither a round of the bootstrap, nor one of the rotation,
    -- nor an onion that cannot be opened changes anything.
    pub busy_kept :
        (p : PeerRegistry) (pause now : ℕ)
        → is_busy p ≡ true
        → (round peer_id keep rebootstrap rotate p pause ≡ (p, wait, pause))
          × ((establish_round peer_id meanwhile attempt p pause).0 ≡ p)
          × (trigger_passive_rebootstrap peer_id p now ≡ (p, none))
    unfolding round in_turn establish_round attempted trigger_passive_rebootstrap marked
    busy_kept p pause now h =
        let busy = mark_busy p h in
        (
          rw busy,
          rw busy (
              choose (has_bootstrap p peer_id) (λ (r : PeerRegistry × Turn × ℕ). r.0 ≡ p)
                (λ _. refl) (λ _. refl)),
          rw busy (
              choose (is_held (grpc_addr p peer_id))
                (λ (r : PeerRegistry × Option Bytes). r ≡ (p, none))
                (λ _.
                  choose (should_attempt_rebootstrap p peer_id now passive_rebootstrap_min_interval)
                    (λ (r : PeerRegistry × Option Bytes). r ≡ (p, none)) (λ _. refl) (λ _. refl))
                (λ _. refl)),
        )

  pub clear_free : (p : PeerRegistry) → is_busy (clear_rebootstrap_inflight p peer_id) ≡ false
  unfolding clear_rebootstrap_inflight is_busy or_false
  clear_free p = rw (lookup-remove_self peer_id p.rebootstrap_inflight)

  pub mark_free :
      (p : PeerRegistry)
      → is_busy p ≡ false
      → try_mark_rebootstrap_inflight p peer_id
        ≡ (record p { rebootstrap_inflight = insert peer_id true p.rebootstrap_inflight }, true)
  unfolding try_mark_rebootstrap_inflight is_busy
  mark_free p h = rw h

  attempt-free :
      (p : PeerRegistry) (pause : ℕ) (attempt : Outcome BootstrapError Bytes)
      → ((after_attempt peer_id p pause attempt).1 ≡ Turn.died)
        ⊎ (is_busy (after_attempt peer_id p pause attempt).0 ≡ false)
  unfolding after_attempt reset_for_bootstrap set_master_for_epoch is_busy
  attempt-free p pause panic = inl refl
  attempt-free p pause (err e) = inr (clear_free p)
  attempt-free p pause (ok secret) = inr (clear_free p)

  attempted-free :
      (meanwhile : PeerRegistry → PeerRegistry) (attempt : Outcome BootstrapError Bytes)
      (p : PeerRegistry) (pause : ℕ)
      → is_busy p ≡ false
      → ((establish_round peer_id meanwhile attempt p pause).1 ≡ Turn.died)
        ⊎ (is_busy (establish_round peer_id meanwhile attempt p pause).0 ≡ false)
  unfolding establish_round attempted
  attempted-free meanwhile attempt p pause h =
      let marked = record p { rebootstrap_inflight = insert peer_id true p.rebootstrap_inflight } in
      rw (mark_free p h) (
        choose (has_bootstrap p peer_id)
          (λ (r : PeerRegistry × Turn × ℕ). (r.1 ≡ Turn.died) ⊎ (is_busy r.0 ≡ false)) (λ _. inr h)
          (λ _. attempt-free (meanwhile marked) pause attempt))

  module _ (keep : ℕ) (rebootstrap : PeerRegistry → PeerRegistry × Bool) where
    released-free :
        (r : Round)
        → ((paused peer_id keep rebootstrap (released peer_id keep rebootstrap r)).1 ≡ Next.died)
          ⊎ (is_busy (paused peer_id keep rebootstrap (released peer_id keep rebootstrap r)).0
              ≡ false)
    unfolding released paused
    released-free (p, Next.died, pause) = inl refl
    released-free (p, wait, pause) = inr (clear_free p)
    released-free (p, retry, pause) = inr (clear_free p)
    released-free (p, backoff, pause) = inr (clear_free p)

    round-free :
        (rotate : PeerRegistry → PeerRegistry × Outcome RotationError ℕ) (p : PeerRegistry)
        (pause : ℕ)
        → is_busy p ≡ false
        → ((round peer_id keep rebootstrap rotate p pause).1 ≡ Next.died)
          ⊎ (is_busy (round peer_id keep rebootstrap rotate p pause).0 ≡ false)
    unfolding round in_turn
    round-free rotate p pause h =
        let marked = record p {
          rebootstrap_inflight = insert peer_id true p.rebootstrap_inflight;
        } in
        rw (mark_free p h)
          (released-free (after_rotation peer_id keep rebootstrap (rotate marked) pause))

  settled-free :
      (p : PeerRegistry) (now : ℕ) (o : Outcome BootstrapError Bytes)
      → o ≢ panic
      → is_busy (settled peer_id p now o) ≡ false
  unfolding settled
  settled-free p now panic n = absurd (n refl)
  settled-free p now (err e) n = clear_free (mark_rebootstrap_failure p peer_id now)
  settled-free p now (ok secret) n =
      clear_free (clear_rebootstrap_failure (reset_for_bootstrap p peer_id secret) peer_id)

  passive-free :
      (meanwhile : PeerRegistry → PeerRegistry) (establish : Bytes → Outcome BootstrapError Bytes)
      (p : PeerRegistry) (now : ℕ) (pk : Bytes) (checked : Outcome BootstrapError Bytes)
      → checked ≢ panic
      → ((fresh : Bytes) → establish fresh ≢ panic)
      → is_busy (passive_rebootstrap peer_id meanwhile establish p now pk checked) ≡ false
  unfolding passive_rebootstrap
  passive-free meanwhile establish p now pk panic n m = absurd (n refl)
  passive-free meanwhile establish p now pk (err e) n m = clear_free p
  passive-free meanwhile establish p now pk (ok fresh) n m =
      settled-free (meanwhile (refreshed peer_id p pk fresh)) now (establish fresh) (m fresh)

  -- A round that finds the flag free leaves it free, unless it ends in a panic, and so does the task
  -- for an onion that could not be opened, where nothing panics.
  pub flag_released :
      (keep : ℕ) (rebootstrap : PeerRegistry → PeerRegistry × Bool)
      (rotate : PeerRegistry → PeerRegistry × Outcome RotationError ℕ)
      (meanwhile : PeerRegistry → PeerRegistry) (attempt : Outcome BootstrapError Bytes)
      (establish : Bytes → Outcome BootstrapError Bytes) (p : PeerRegistry) (pause now : ℕ)
      (pk : Bytes) (checked : Outcome BootstrapError Bytes)
      → is_busy p ≡ false
      → checked ≢ panic
      → ((fresh : Bytes) → establish fresh ≢ panic)
      → (((round peer_id keep rebootstrap rotate p pause).1 ≡ Next.died)
          ⊎ (is_busy (round peer_id keep rebootstrap rotate p pause).0 ≡ false))
        × (((establish_round peer_id meanwhile attempt p pause).1 ≡ Turn.died)
            ⊎ (is_busy (establish_round peer_id meanwhile attempt p pause).0 ≡ false))
        × (is_busy (passive_rebootstrap peer_id meanwhile establish p now pk checked) ≡ false)
  flag_released keep rebootstrap rotate meanwhile attempt establish p pause now pk checked h n m = (
    round-free keep rebootstrap rotate p pause h,
    attempted-free meanwhile attempt p pause h,
    passive-free meanwhile establish p now pk checked n m,
  )
