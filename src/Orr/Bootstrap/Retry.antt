-- ===== src/Orr/Bootstrap/Retry.antt =====
-- On when `trigger_passive_rebootstrap` of orr/src/service.rs begins the next attempt.
use dkms.Prelude.{
  ℕ, ◌+◌, ◌≤◌, ◌≡◌, ◌↔◌, refl, true, false, String, Option, none, some, arith, Bool-cases, inl, inr,
  Option-cases,
}
use dkms.Prelude.Assoc.{string_keys, lookup, lookup-insert_self}
use dkms.Prelude.Bytes.{Bytes}
use dkms.Prelude.Outcome.{Outcome, ok, err}
use dkms.Orr.Peers.{PeerRegistry, public_key, grpc_addr, is_held}
use dkms.Orr.Peers.Flags.{
  clear_rebootstrap_inflight, should_attempt_rebootstrap, mark_rebootstrap_failure,
}
use dkms.Orr.Bootstrap.{BootstrapError}
use dkms.Orr.Bootstrap.Exclusive.{is_busy, mark_free, mark_busy, clear_free}
use dkms.Orr.Bootstrap.Passive.{
  passive_rebootstrap_min_interval, cleared, marked, trigger_passive_rebootstrap, refreshed,
  settled, passive_rebootstrap,
}

not_none : {b : Bytes} → none ≡ some b → ⊥
not_none h = cc

module _ (peer_id : String) where
  -- The failure is marked, and the flag cleared.
  abbrev failed_at : PeerRegistry → ℕ → PeerRegistry
  failed_at p now = clear_rebootstrap_inflight (mark_rebootstrap_failure p peer_id now) peer_id

  failed_due :
      (p : PeerRegistry) (now later : ℕ)
      → (should_attempt_rebootstrap (failed_at p now) peer_id later passive_rebootstrap_min_interval
          ≡ true)
        ↔ (now + 5000 ≤ later)
  unfolding mark_rebootstrap_failure should_attempt_rebootstrap clear_rebootstrap_inflight
  failed_due p now later =
      rw (should_attempt_rebootstrap, lookup-insert_self peer_id now p.rebootstrap_last_failure)
        (ground arith)

  -- The last failure, if there was one, is 5 s ago or more.
  abbrev pub IsLongAgo : Option ℕ → ℕ → Type 0
  IsLongAgo none now = Unit
  IsLongAgo (some last) now = last + 5000 ≤ now

  long_due :
      (p : PeerRegistry) (later : ℕ)
      → (should_attempt_rebootstrap p peer_id later passive_rebootstrap_min_interval ≡ true)
        ↔ IsLongAgo (lookup peer_id p.rebootstrap_last_failure) later
  unfolding should_attempt_rebootstrap
  long_due p later = elim (Option-cases (lookup peer_id p.rebootstrap_last_failure)) [
    | inl e ↦ rw (should_attempt_rebootstrap, e) (λ h. tt, λ h. refl)
    | inr (last, e) ↦ rw (should_attempt_rebootstrap, e) (ground arith)
  ]

  -- The conditions under which the task begins.
  abbrev IsDue : PeerRegistry → ℕ → Bytes → Type 0
  IsDue p now pk =
      (is_held (grpc_addr p peer_id) ≡ true)
      × (should_attempt_rebootstrap p peer_id now passive_rebootstrap_min_interval ≡ true)
      × (is_busy peer_id p ≡ false)
      × (public_key p peer_id ≡ some pk)

  key_held :
      (p : PeerRegistry) (o : Option Bytes) (pk : Bytes)
      → (cleared peer_id p o).1 ≡ some pk
      → o ≡ some pk
  unfolding cleared
  key_held p none pk h = cc
  key_held p (some k) pk h = h

  trigger-IsDue :
      (p : PeerRegistry) (now : ℕ) (pk : Bytes)
      → (trigger_passive_rebootstrap peer_id p now).1 ≡ some pk
      → IsDue p now pk
  unfolding trigger_passive_rebootstrap marked public_key
  trigger-IsDue p now pk h = elim (Bool-cases (is_held (grpc_addr p peer_id))) [
    | inr a ↦ absurd (not_none (rw a at h))
    | inl a ↦
        elim (Bool-cases
          (should_attempt_rebootstrap p peer_id now passive_rebootstrap_min_interval)) [
            | inr b ↦ absurd (not_none (rw (a, b) at h))
            | inl b ↦ elim (Bool-cases (is_busy peer_id p)) [
              | inl c ↦ absurd (not_none (rw (a, b, mark_busy peer_id p c) at h))
              | inr c ↦ (
                a,
                b,
                c,
                key_held _ (public_key p peer_id) pk (rw (a, b, mark_free peer_id p c) at h),
              )
            ]
          ]
  ]

  due-trigger :
      (p : PeerRegistry) (now : ℕ) (pk : Bytes)
      → IsDue p now pk
      → (trigger_passive_rebootstrap peer_id p now).1 ≡ some pk
  unfolding trigger_passive_rebootstrap marked public_key
  due-trigger p now pk (a, b, c, d) = rw (a, b, mark_free peer_id p c) (rw (cleared, d) refl)

  -- An address and the key `pk` of the peer are held.
  abbrev pub IsReady : PeerRegistry → Bytes → Type 0
  IsReady p pk =
      ((addr : String) × (lookup peer_id p.grpc_addrs ≡ some addr))
      × (lookup peer_id p.pubkeys ≡ some pk)

  held_iff : (o : Option String) → (is_held o ≡ true) ↔ ((addr : String) × (o ≡ some addr))
  unfolding is_held
  held_iff none = (λ h. cc, λ h. cc)
  held_iff (some addr) = (λ h. (addr, refl), λ h. refl)

  after_refused :
      (p : PeerRegistry) (later : ℕ) (pk : Bytes)
      → ((trigger_passive_rebootstrap peer_id (clear_rebootstrap_inflight p peer_id) later).1
          ≡ some pk)
        ↔ (IsReady p pk × IsLongAgo (lookup peer_id p.rebootstrap_last_failure) later)
  unfolding clear_rebootstrap_inflight grpc_addr public_key
  after_refused p later pk =
      let q = clear_rebootstrap_inflight p peer_id in
      (
        λ h.
            let (a, b, c, d) = trigger-IsDue q later pk h in
            (((held_iff (grpc_addr q peer_id)).0 a, d), (long_due q later).0 b),
        λ (r, t). due-trigger q later pk (
          (held_iff (grpc_addr q peer_id)).1 r.0,
          (long_due q later).1 t,
          clear_free peer_id p,
          r.1,
        ),
      )

  after_failed :
      (p : PeerRegistry) (now later : ℕ) (pk : Bytes)
      → ((trigger_passive_rebootstrap peer_id (failed_at p now) later).1 ≡ some pk)
        ↔ (IsReady p pk × (now + 5000 ≤ later))
  unfolding clear_rebootstrap_inflight mark_rebootstrap_failure grpc_addr public_key
  after_failed p now later pk =
      let q = failed_at p now in
      (
        λ h.
            let (a, b, c, d) = trigger-IsDue q later pk h in
            (((held_iff (grpc_addr q peer_id)).0 a, d), (failed_due p now later).0 b),
        λ (r, t). due-trigger q later pk (
          (held_iff (grpc_addr q peer_id)).1 r.0,
          (failed_due p now later).1 t,
          clear_free peer_id (mark_rebootstrap_failure p peer_id now),
          r.1,
        ),
      )

  -- Once the key of the peer could not be fetched, or was refused, an onion begins another attempt
  -- exactly where an address and the key of the peer are held and an earlier failure of
  -- `attempt_establish`, if there was one, is 5 s ago or more; this refusal itself, at whatever time,
  -- delays nothing. Where `attempt_establish` failed, an onion begins another attempt exactly where
  -- an address and the key are held and that failure is 5 s ago or more.
  pub next_attempt_iff :
      (meanwhile : PeerRegistry → PeerRegistry) (establish : Bytes → Outcome BootstrapError Bytes)
      (p : PeerRegistry) (now later : ℕ) (pk fresh known : Bytes) (refusal failure : BootstrapError)
      → establish fresh ≡ err failure
      → let refused = passive_rebootstrap peer_id meanwhile establish p now pk (err refusal) in
        let failed = passive_rebootstrap peer_id meanwhile establish p now pk (ok fresh) in
        let q = meanwhile (refreshed peer_id p pk fresh) in
        (((trigger_passive_rebootstrap peer_id refused later).1 ≡ some known)
          ↔ (IsReady p known × IsLongAgo (lookup peer_id p.rebootstrap_last_failure) later))
        × (((trigger_passive_rebootstrap peer_id failed later).1 ≡ some known)
            ↔ (IsReady q known × (now + 5000 ≤ later)))
  unfolding passive_rebootstrap settled
  next_attempt_iff meanwhile establish p now later pk fresh known refusal failure h = (
    after_refused p later known,
    rw h (after_failed (meanwhile (refreshed peer_id p pk fresh)) now later known),
  )
