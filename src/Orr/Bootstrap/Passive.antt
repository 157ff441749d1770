-- ===== src/Orr/Bootstrap/Passive.antt =====
-- orr/src/service.rs: `trigger_passive_rebootstrap`, for a peer whose onions this router cannot open.
-- The decision is a step; the task that it begins is cut at its two calls of the peer. The clock is
-- an argument, in milliseconds.
use dkms.Prelude.{ℕ, Bool, true, false, String, Option, none, some, if◌then◌else◌}
use dkms.Prelude.Bytes.{Bytes, same_bytes}
use dkms.Prelude.Outcome.{Outcome, ok, err, panic}
use dkms.Orr.Peers.{
  PeerRegistry, grpc_addr, is_held, public_key, put_pubkey, clear_peer_secrets, reset_for_bootstrap,
}
use dkms.Orr.Peers.Flags.{
  should_attempt_rebootstrap, try_mark_rebootstrap_inflight, clear_rebootstrap_inflight,
  mark_rebootstrap_failure, clear_rebootstrap_failure,
}
use dkms.Orr.Bootstrap.{BootstrapError}

abbrev pub passive_rebootstrap_min_interval : ℕ
passive_rebootstrap_min_interval = 5000

module _ (peer_id : String) where
  -- The secrets go before the handshake. The key is the one that the task compares with.
  unfoldable pub cleared : PeerRegistry → Option Bytes → PeerRegistry × Option Bytes
  cleared p none = (clear_rebootstrap_inflight p peer_id, none)
  cleared p (some pk) = (clear_peer_secrets p peer_id, some pk)

  unfoldable pub marked : PeerRegistry × Bool → PeerRegistry × Option Bytes
  unfolding cleared
  marked (p, false) = (p, none)
  marked (p, true) = cleared p (public_key p peer_id)

  -- The registry, and the key that was held where the task begins.
  unfoldable pub trigger_passive_rebootstrap :
      PeerRegistry → (now : ℕ) → PeerRegistry × Option Bytes
  unfolding marked
  trigger_passive_rebootstrap p now =
      if is_held (grpc_addr p peer_id)
      then if should_attempt_rebootstrap p peer_id now passive_rebootstrap_min_interval
        then marked (try_mark_rebootstrap_inflight p peer_id)
        else (p, none)
      else (p, none)

  -- The key that was fetched is put where it is another one.
  unfoldable pub refreshed : PeerRegistry → (pk fresh : Bytes) → PeerRegistry
  refreshed p pk fresh = if same_bytes fresh pk then p else put_pubkey p peer_id fresh

  unfoldable pub settled : PeerRegistry → (now : ℕ) → Outcome BootstrapError Bytes → PeerRegistry
  settled p now panic = p
  settled p now (err e) =
      clear_rebootstrap_inflight (mark_rebootstrap_failure p peer_id now) peer_id
  settled p now (ok secret) =
      clear_rebootstrap_inflight
        (clear_rebootstrap_failure (reset_for_bootstrap p peer_id secret) peer_id) peer_id

  -- The task, once the key was fetched and checked, on the registry as it is then, with what other tasks
  -- did to it while the task waited: `checked` is what `fresh_pubkey` gives,
  -- `establish` is `attempt_establish`, `now` is the time at which that has
  -- failed, and `meanwhile` what other tasks do while that waits.
  unfoldable pub passive_rebootstrap :
      (PeerRegistry → PeerRegistry)
      → (Bytes → Outcome BootstrapError Bytes)
      → PeerRegistry
      → (now : ℕ) → (pk : Bytes) → Outcome BootstrapError Bytes
      → PeerRegistry
  unfolding refreshed settled
  passive_rebootstrap meanwhile establish p now pk panic = p
  passive_rebootstrap meanwhile establish p now pk (err e) = clear_rebootstrap_inflight p peer_id
  passive_rebootstrap meanwhile establish p now pk (ok fresh) =
      settled (meanwhile (refreshed p pk fresh)) now (establish fresh)
