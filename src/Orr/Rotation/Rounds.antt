-- ===== src/Orr/Rotation/Rounds.antt =====
-- On the pause of the rounds of a rotation of orr/src/rotation.rs.
use dkms.Prelude.{ℕ, ◌≤◌, Bool, true, false, String, arith}
use dkms.Prelude.Outcome.{Outcome, ok, err, panic}
use dkms.Orr.Peers.{PeerRegistry}
use dkms.Orr.Peers.Flags.{try_mark_rebootstrap_inflight}
use dkms.Orr.Rotation.{RotationError, no_bootstrap, transport, mac, pqc, remote, bad_secret_len}
use dkms.Orr.Rotation.Initiator.{
  Round, wait, retry, backoff, died, first_backoff, max_backoff, is_diverged, after_refusal,
  after_rotation, paused, released, in_turn, round,
}

-- The pause of a failure is within its bounds.
unfoldable pub IsPause : ℕ → Type 0
IsPause pause = (first_backoff ≤ pause) × (pause ≤ max_backoff)

module _ (peer_id : String) (keep : ℕ) (rebootstrap : PeerRegistry → PeerRegistry × Bool) where
  paused-IsPause : (r : Round) → IsPause r.2 → IsPause (paused peer_id keep rebootstrap r).2
  unfolding paused IsPause
  paused-IsPause (p, wait, pause) i = i
  paused-IsPause (p, died, pause) i = i
  paused-IsPause (p, retry, pause) i = i
  paused-IsPause (p, backoff, pause) i = (omega (arith, i), omega (arith, i))

  released-IsPause : (r : Round) → IsPause r.2 → IsPause (released peer_id keep rebootstrap r).2
  unfolding released
  released-IsPause (p, wait, pause) i = i
  released-IsPause (p, died, pause) i = i
  released-IsPause (p, retry, pause) i = i
  released-IsPause (p, backoff, pause) i = i

  refusal-IsPause :
      (p : PeerRegistry) (pause : ℕ) (b : Bool)
      → IsPause pause
      → IsPause (after_refusal peer_id keep rebootstrap p pause b).2
  unfolding after_refusal
  refusal-IsPause p pause false i = i
  refusal-IsPause p pause true i = i

  rotation-IsPause :
      (q : PeerRegistry × Outcome RotationError ℕ) (pause : ℕ)
      → IsPause pause
      → IsPause (after_rotation peer_id keep rebootstrap q pause).2
  unfolding after_rotation IsPause
  rotation-IsPause (p, ok epoch) pause i = (omega arith, omega arith)
  rotation-IsPause (p, panic) pause i = i
  rotation-IsPause (p, err no_bootstrap) pause i = i
  rotation-IsPause (p, err transport) pause i = i
  rotation-IsPause (p, err mac) pause i = i
  rotation-IsPause (p, err pqc) pause i = i
  rotation-IsPause (p, err (bad_secret_len n)) pause i = i
  rotation-IsPause (p, err (remote r)) pause i = refusal-IsPause p pause (is_diverged r) i

  turn-IsPause :
      (rotate : PeerRegistry → PeerRegistry × Outcome RotationError ℕ) (pause : ℕ)
      (q : PeerRegistry × Bool)
      → IsPause pause
      → IsPause (in_turn peer_id keep rebootstrap rotate pause q).2
  unfolding in_turn
  turn-IsPause rotate pause (p, false) i = i
  turn-IsPause rotate pause (p, true) i =
      let r = after_rotation peer_id keep rebootstrap (rotate p) pause in
      paused-IsPause (released peer_id keep rebootstrap r)
        (released-IsPause r (rotation-IsPause (rotate p) pause i))

  -- The pause stays from 250 ms to 30 s, whatever comes of a round.
  pub round-IsPause :
      (rotate : PeerRegistry → PeerRegistry × Outcome RotationError ℕ) (p : PeerRegistry)
      (pause : ℕ)
      → IsPause pause
      → IsPause (round peer_id keep rebootstrap rotate p pause).2
  unfolding round
  round-IsPause rotate p pause i =
      turn-IsPause rotate pause (try_mark_rebootstrap_inflight p peer_id) i
