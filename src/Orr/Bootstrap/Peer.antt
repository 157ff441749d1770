-- ===== src/Orr/Bootstrap/Peer.antt =====
-- orr/src/bootstrap.rs: what `bootstrap_peer` does for one peer, once its public key was fetched.
-- Times are in milliseconds.
use dkms.Prelude.{ℕ, ◌*◌, min, Bool, true, false, not, String, Option, none, some, if◌then◌else◌}
use dkms.Prelude.Bytes.{Bytes}
use dkms.Prelude.Outcome.{Outcome, ok, err, panic}
use dkms.Orr.Peers.{PeerRegistry, public_key, has_bootstrap, reset_for_bootstrap}
use dkms.Orr.Peers.Flags.{try_mark_rebootstrap_inflight, clear_rebootstrap_inflight}
use dkms.Orr.Bootstrap.{BootstrapError, bytes_ltb}
use dkms.Orr.Rotation.Initiator.{max_backoff}

-- The side of the router: it waits for the peer, has a secret already, has no key of the peer, or
-- encapsulates to the key that is given.
pub data Side : Type 0 where
  passive present aborted : Side
  establishes : Bytes → Side

unfoldable pub side_of_key : Option Bytes → Side
side_of_key none = aborted
side_of_key (some pk) = establishes pk

module _ (as_bytes : String → Bytes) where
  -- Of two routers the one with the lower id begins.
  unfoldable pub begins : (local_orr_id peer_id : String) → Bool
  begins local_orr_id peer_id = bytes_ltb (as_bytes local_orr_id) (as_bytes peer_id)

  unfoldable pub side : PeerRegistry → (local_orr_id peer_id : String) → Side
  unfolding side_of_key begins
  side p local_orr_id peer_id =
      if not (begins local_orr_id peer_id)
      then passive
      else if has_bootstrap p peer_id
      then present
      else side_of_key (public_key p peer_id)

-- What the loop does next: it ends, waits 200 ms for the other establishment, or waits for the pause
-- and tries again. A panic ends the task.
pub data Turn : Type 0 where
  finished waits again died : Turn

module _ (peer_id : String) where
  unfoldable pub after_attempt :
      PeerRegistry → ℕ → Outcome BootstrapError Bytes → PeerRegistry × Turn × ℕ
  after_attempt p pause panic = (p, died, pause)
  after_attempt p pause (err e) =
      (clear_rebootstrap_inflight p peer_id, again, min (pause * 2) max_backoff)
  after_attempt p pause (ok secret) =
      (reset_for_bootstrap (clear_rebootstrap_inflight p peer_id) peer_id secret, finished, pause)

  unfoldable pub attempted :
      (PeerRegistry → PeerRegistry)
      → Outcome BootstrapError Bytes
      → ℕ
      → PeerRegistry × Bool
      → PeerRegistry × Turn × ℕ
  unfolding after_attempt
  attempted meanwhile attempt pause (p, false) = (p, waits, pause)
  attempted meanwhile attempt pause (p, true) = after_attempt (meanwhile p) pause attempt

  -- A round of the loop, where `attempt` is what `attempt_establish` gives.
  unfoldable pub establish_round :
      (PeerRegistry → PeerRegistry)
      → Outcome BootstrapError Bytes
      → PeerRegistry
      → (pause : ℕ) → PeerRegistry × Turn × ℕ
  unfolding attempted
  establish_round meanwhile attempt p pause =
      if has_bootstrap p peer_id
      then (p, finished, pause)
      else attempted meanwhile attempt pause (try_mark_rebootstrap_inflight p peer_id)
