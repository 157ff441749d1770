-- ===== src/Orr/Rotation/Initiator.antt =====
-- orr/src/rotation.rs: `run_one_rotation` and the rounds of `spawn_rotation_task`, on the side that
-- begins. Times are in milliseconds.
use dkms.Prelude.{
  ℕ, ◌*◌, min, Bool, true, false, not, String, Option, none, some, length, ◌==◌, if◌then◌else◌,
}
use dkms.Prelude.Bytes.{Bytes}
use dkms.Prelude.Outcome.{Outcome, ok, err, panic, ◌>>=◌, ◌>>◌, refuse_if}
use dkms.Orr.Macs.{mac_req, mac_fin, verify_mac_resp}
use dkms.Orr.Peers.{
  PeerRegistry, bootstrap_for, current_send_epoch, set_current_send_epoch, set_master_for_epoch,
  remove_master_epoch, drop_old_epochs_for,
}
use dkms.Orr.Peers.Flags.{try_mark_rebootstrap_inflight, clear_rebootstrap_inflight}
use dkms.Orr.Rotation.{
  Refusal, ids_required, peer_mismatch, no_bootstrap_secret, mac_req_invalid, mac_fin_invalid,
  kem_suite, keygen_failed, no_ephemeral_sk, decap_failed, secret_len, RotationError, no_bootstrap,
  transport, mac, pqc, remote, bad_secret_len, KeyRequest, KeyResponse, SecretRequest, Answer,
  Environment, or_err, of_mac, next_epoch,
}

-- The peer that answers: `none` where it is not reached or the call fails. While a call waits, other
-- tasks may change the registry.
pub record Remote : Type 0 where
  pub on_key : KeyRequest → Option (Answer KeyResponse)
  pub on_secret : SecretRequest → Option (Answer (Unit {0}))
  pub before_key : PeerRegistry → PeerRegistry
  pub before_secret : PeerRegistry → PeerRegistry

unfoldable pub received {ℓ} : {A : Type ℓ} → Option (Outcome Refusal A) → Outcome RotationError A
received none = err transport
received (some panic) = err transport
received (some (err r)) = err (remote r)
received (some (ok a)) = ok a

module _ (env : Environment) (local_orr_id peer_id : String) where
  unfoldable pub key_request : (bootstrap : Bytes) → (epoch : ℕ) → KeyRequest
  key_request bootstrap epoch = record {
    from = some local_orr_id;
    peer = some peer_id;
    epoch_id = epoch;
    mac =
        mac_req env.hmac env.is_same bootstrap epoch (env.as_bytes local_orr_id)
          (env.as_bytes peer_id);
  }

  unfoldable pub secret_request : (bootstrap : Bytes) → (epoch : ℕ) → (ct : Bytes) → SecretRequest
  secret_request bootstrap epoch ct = record {
    from = some local_orr_id;
    peer = some peer_id;
    epoch_id = epoch;
    ciphertext = ct;
    mac =
        mac_fin env.hmac env.is_same bootstrap epoch (env.as_bytes local_orr_id)
          (env.as_bytes peer_id) ct;
  }

  -- The ciphertext and the secret that come of the peer's ephemeral key.
  unfoldable pub encapsulate :
      (bootstrap : Bytes) (epoch draw : ℕ) → KeyResponse → Outcome RotationError (Bytes × Bytes)
  encapsulate bootstrap epoch draw resp = do
    of_mac (
        verify_mac_resp env.hmac env.is_same bootstrap epoch (env.as_bytes local_orr_id)
          (env.as_bytes peer_id) resp.ephemeral_pubkey resp.mac)
    refuse_if (not env.has_suite) pqc
    (ct, ss) ← or_err pqc (env.encap draw resp.ephemeral_pubkey)
    refuse_if (not (length ss == 32)) (bad_secret_len (length ss))
    ok (ct, ss)

  -- The epoch is used to send once the peer has confirmed it, and is taken back otherwise.
  unfoldable pub commit :
      PeerRegistry
      → (epoch : ℕ) → Outcome RotationError (Unit {0})
      → PeerRegistry × Outcome RotationError ℕ
  commit p epoch panic = (p, panic)
  commit p epoch (err e) = (remove_master_epoch p peer_id epoch, err e)
  commit p epoch (ok u) = (set_current_send_epoch p peer_id epoch, ok epoch)

  unfoldable pub after_key :
      Remote
      → PeerRegistry
      → (bootstrap : Bytes) → (epoch : ℕ) → Outcome RotationError (Bytes × Bytes)
      → PeerRegistry × Outcome RotationError ℕ
  unfolding commit received secret_request
  after_key r p bootstrap epoch panic = (p, panic)
  after_key r p bootstrap epoch (err e) = (p, err e)
  after_key r p bootstrap epoch (ok (ct, ss)) =
      commit (r.before_secret (set_master_for_epoch p peer_id epoch ss)) epoch
        (received (r.on_secret (secret_request bootstrap epoch ct)))

  unfoldable pub rotate_with :
      Remote → PeerRegistry → (draw : ℕ) → Option Bytes → PeerRegistry × Outcome RotationError ℕ
  unfolding after_key encapsulate key_request
  rotate_with r p draw none = (p, err no_bootstrap)
  rotate_with r p draw (some bootstrap) =
      let epoch = next_epoch (current_send_epoch p peer_id) in
      after_key r (r.before_key p) bootstrap epoch
        (received (r.on_key (key_request bootstrap epoch)) >>= encapsulate bootstrap epoch draw)

  unfoldable pub run_one_rotation :
      Remote → PeerRegistry → (draw : ℕ) → PeerRegistry × Outcome RotationError ℕ
  unfolding rotate_with
  run_one_rotation r p draw = rotate_with r p draw (bootstrap_for p peer_id)

abbrev pub first_backoff : ℕ
first_backoff = 250

abbrev pub max_backoff : ℕ
max_backoff = 30_000

-- A panic ends the task.
pub data Next : Type 0 where
  wait retry backoff died : Next

-- The answers after which the bootstrap is made anew.
unfoldable pub is_diverged : Refusal → Bool
is_diverged no_bootstrap_secret = true
is_diverged mac_req_invalid = true
is_diverged mac_fin_invalid = true
is_diverged ids_required = false
is_diverged peer_mismatch = false
is_diverged kem_suite = false
is_diverged keygen_failed = false
is_diverged no_ephemeral_sk = false
is_diverged decap_failed = false
is_diverged secret_len = false

-- The registry, what to do next and the pause of the next failure.
abbrev pub Round : Type 0
Round = PeerRegistry × Next × ℕ

module _ (peer_id : String) (keep : ℕ) (rebootstrap : PeerRegistry → PeerRegistry × Bool) where
  unfoldable pub after_refusal : PeerRegistry → ℕ → Bool → Round
  after_refusal p pause false = (p, backoff, pause)
  after_refusal p pause true =
      let (q, done) = rebootstrap p in (q, if done then retry else backoff, pause)

  unfoldable pub after_rotation : PeerRegistry × Outcome RotationError ℕ → ℕ → Round
  unfolding after_refusal is_diverged
  after_rotation (p, ok epoch) pause = (drop_old_epochs_for p peer_id keep, wait, first_backoff)
  after_rotation (p, panic) pause = (p, died, pause)
  after_rotation (p, err no_bootstrap) pause = (p, wait, pause)
  after_rotation (p, err transport) pause = (p, backoff, pause)
  after_rotation (p, err mac) pause = (p, backoff, pause)
  after_rotation (p, err pqc) pause = (p, backoff, pause)
  after_rotation (p, err (bad_secret_len n)) pause = (p, backoff, pause)
  after_rotation (p, err (remote r)) pause = after_refusal p pause (is_diverged r)

  -- `backoff = (backoff * 2).min(max_backoff)`, after the pause
  unfoldable pub paused : Round → Round
  paused (p, wait, pause) = (p, wait, pause)
  paused (p, died, pause) = (p, died, pause)
  paused (p, retry, pause) = (p, retry, pause)
  paused (p, backoff, pause) = (p, backoff, min (pause * 2) max_backoff)

  -- The flag is cleared once the round is over, which it is not where the task ends.
  unfoldable pub released : Round → Round
  released (p, died, pause) = (p, died, pause)
  released (p, wait, pause) = (clear_rebootstrap_inflight p peer_id, wait, pause)
  released (p, retry, pause) = (clear_rebootstrap_inflight p peer_id, retry, pause)
  released (p, backoff, pause) = (clear_rebootstrap_inflight p peer_id, backoff, pause)

  unfoldable pub in_turn :
      (PeerRegistry → PeerRegistry × Outcome RotationError ℕ) → ℕ → PeerRegistry × Bool → Round
  unfolding paused after_rotation released
  in_turn rotate pause (p, true) = paused (released (after_rotation (rotate p) pause))
  in_turn rotate pause (p, false) = (p, wait, pause)

  -- A round of the inner loop, where `rotate` is `run_one_rotation`.
  unfoldable pub round :
      (PeerRegistry → PeerRegistry × Outcome RotationError ℕ) → PeerRegistry → ℕ → Round
  unfolding in_turn
  round rotate p pause = in_turn rotate pause (try_mark_rebootstrap_inflight p peer_id)
