-- ===== src/Orr/Rotation.antt =====
-- orr/src/rotation.rs: a rotation of the secret that two routers share, by an ephemeral key pair. The
-- KEM, HMAC and its comparison, `to_lowercase` and the bytes of a text are parameters. The text of an
-- answer that refuses is told by its case. A rotation is cut at its two calls of the peer: what the
-- peer answers is a function of what it is sent, and what other tasks do to the registry while the
-- rotation waits is a function as well.
pub mod Initiator
pub mod Agree
pub mod Rounds
pub mod Once
use dkms.Prelude.{
  ℕ, ◌+◌, ◌-◌, ◌^◌, min, Bool, true, false, not, ◌||◌, String, Option, none, some, length, ◌==◌,
  if◌then◌else◌,
}
use dkms.Prelude.Assoc.{string_keys, ◌==◌ as same_text}
use dkms.Prelude.Bytes.{Bytes}
use dkms.Prelude.Outcome.{Outcome, ok, err, panic, ◌>>=◌}
use dkms.Orr.Macs.{
  RotationMacError, mac_req, mac_resp, mac_fin, verify_mac_req, verify_mac_resp, verify_mac_fin,
}
use dkms.Orr.Peers.{
  PeerRegistry, bootstrap_for, current_send_epoch, set_current_send_epoch, set_master_for_epoch,
  remove_master_epoch, drop_old_epochs_for, store_ephemeral_sk, take_ephemeral_sk,
}
use dkms.Orr.Peers.Flags.{try_mark_rebootstrap_inflight, clear_rebootstrap_inflight}

-- Why a peer refuses: the texts of its answers.
pub data Refusal : Type 0 where
  ids_required peer_mismatch no_bootstrap_secret mac_req_invalid mac_fin_invalid : Refusal
  kem_suite keygen_failed no_ephemeral_sk decap_failed secret_len : Refusal

pub data RotationError : Type 0 where
  no_bootstrap transport mac pqc : RotationError
  remote : Refusal → RotationError
  bad_secret_len : ℕ → RotationError

pub record KeyRequest : Type 0 where
  pub from : Option String
  pub peer : Option String
  pub epoch_id : ℕ
  pub mac : Bytes

pub record KeyResponse : Type 0 where
  pub ephemeral_pubkey : Bytes
  pub mac : Bytes

pub record SecretRequest : Type 0 where
  pub from : Option String
  pub peer : Option String
  pub epoch_id : ℕ
  pub ciphertext : Bytes
  pub mac : Bytes

-- An answer is `err` where its `ok` is false.
abbrev pub Answer : Type 0 → Type 0
Answer A = Outcome Refusal A

-- What the rotation calls of other code. A key pair and an encapsulation are drawn at random, which
-- is the argument of `keygen` and `encap`; `none` is an error.
pub record Environment : Type 0 where
  pub hmac : Bytes → Bytes → Bytes
  pub is_same : Bytes → Bytes → Bool
  pub to_lowercase : String → String
  pub as_bytes : String → Bytes
  pub has_suite : Bool
  pub keygen : ℕ → Option (Bytes × Bytes)
  pub encap : ℕ → Bytes → Option (Bytes × Bytes)
  pub decap : (secret ciphertext : Bytes) → Option Bytes

unfoldable pub or_err {ℓ κ} : {E : Type ℓ} {A : Type κ} → E → Option A → Outcome E A
or_err e none = err e
or_err e (some a) = ok a

unfoldable pub of_mac : Outcome RotationMacError (Unit {0}) → Outcome RotationError (Unit {0})
of_mac panic = panic
of_mac (err e) = err mac
of_mac (ok u) = ok u

-- `current_send_epoch.unwrap_or(0).saturating_add(1)`, on 32 bits
unfoldable pub next_epoch : Option ℕ → ℕ
next_epoch none = 1
next_epoch (some e) = min (e + 1) (2 ^ 32 - 1)

module _ (env : Environment) where
  -- `m.from.map(|n| n.value.to_lowercase()).unwrap_or_default()`
  unfoldable pub lower_id : Option String → String
  lower_id none = ""
  lower_id (some id) = env.to_lowercase id

  -- The answer of `verify_mac_…`, where the text of the refusal is given.
  unfoldable pub refuse_mac :
      {A : Type 0} → Refusal → Outcome RotationMacError (Unit {0}) → Answer A → Answer A
  refuse_mac r panic next = panic
  refuse_mac r (err e) next = err r
  refuse_mac r (ok u) next = next

  -- The checks that both handlers begin with.
  unfoldable pub authorised : PeerRegistry → (local_orr_id from peer : String) → Answer Bytes
  authorised p local_orr_id from peer =
      if same_text from "" || same_text peer ""
      then err ids_required
      else if not (same_text peer local_orr_id)
      then err peer_mismatch
      else or_err no_bootstrap_secret (bootstrap_for p from)

  unfoldable pub checked_request :
      PeerRegistry → String → ℕ → KeyRequest → (from peer : String) → Answer (Bytes × Bytes × Bytes)
  unfolding authorised refuse_mac or_err
  checked_request p local_orr_id draw m from peer = do
    bootstrap ← authorised p local_orr_id from peer
    refuse_mac mac_req_invalid
        (verify_mac_req env.hmac env.is_same bootstrap m.epoch_id (env.as_bytes from)
          (env.as_bytes peer) m.mac)
        (if env.has_suite
          then (or_err keygen_failed (env.keygen draw) >>= λ kp. ok (bootstrap, kp.0, kp.1))
          else err kem_suite)

  -- The key pair that was drawn is kept, and its public key is sent.
  unfoldable pub issue :
      PeerRegistry
      → KeyRequest
      → (from peer : String) → Answer (Bytes × Bytes × Bytes)
      → PeerRegistry × Answer KeyResponse
  issue p m from peer panic = (p, panic)
  issue p m from peer (err r) = (p, err r)
  issue p m from peer (ok (bootstrap, public, secret)) = (
    store_ephemeral_sk p from m.epoch_id secret,
    ok (record {
      ephemeral_pubkey = public;
      mac =
          mac_resp env.hmac env.is_same bootstrap m.epoch_id (env.as_bytes from) (env.as_bytes peer)
            public;
    }),
  )

  unfoldable pub handle_request_ephemeral_key :
      PeerRegistry
      → (local_orr_id : String) → (draw : ℕ) → KeyRequest
      → PeerRegistry × Answer KeyResponse
  unfolding issue lower_id checked_request
  handle_request_ephemeral_key p local_orr_id draw m =
      let from = lower_id m.from in
      let peer = lower_id m.peer in
      issue p m from peer (checked_request p local_orr_id draw m from peer)

  unfoldable pub checked_secret :
      PeerRegistry → String → SecretRequest → (from peer : String) → Answer (Unit {0})
  unfolding authorised refuse_mac
  checked_secret p local_orr_id m from peer = do
    bootstrap ← authorised p local_orr_id from peer
    refuse_mac mac_fin_invalid
        (verify_mac_fin env.hmac env.is_same bootstrap m.epoch_id (env.as_bytes from)
          (env.as_bytes peer) m.ciphertext m.mac)
        (ok tt)

  -- The key is taken out of the registry before it is used, whatever comes of that.
  unfoldable pub install :
      SecretRequest
      → (from : String) → (keep : ℕ) → PeerRegistry × Option Bytes
      → PeerRegistry × Answer (Unit {0})
  install m from keep (p, none) = (p, err no_ephemeral_sk)
  install m from keep (p, some esk) =
      if not env.has_suite then (p, err kem_suite) else elim (env.decap esk m.ciphertext) [
        | none ↦ (p, err decap_failed)
        | some ss ↦
            if not (length ss == 32)
            then (p, err secret_len)
            else (drop_old_epochs_for (set_master_for_epoch p from m.epoch_id ss) from keep, ok tt)
      ]

  unfoldable pub establish :
      PeerRegistry
      → SecretRequest
      → (from : String) → (keep : ℕ) → Answer (Unit {0})
      → PeerRegistry × Answer (Unit {0})
  unfolding install
  establish p m from keep panic = (p, panic)
  establish p m from keep (err r) = (p, err r)
  establish p m from keep (ok u) = install m from keep (take_ephemeral_sk p from m.epoch_id)

  unfoldable pub handle_establish_ephemeral_secret :
      PeerRegistry
      → (local_orr_id : String) → (epoch_history_keep : ℕ) → SecretRequest
      → PeerRegistry × Answer (Unit {0})
  unfolding establish lower_id checked_secret
  handle_establish_ephemeral_secret p local_orr_id epoch_history_keep m =
      let from = lower_id m.from in
      let peer = lower_id m.peer in
      establish p m from epoch_history_keep (checked_secret p local_orr_id m from peer)
