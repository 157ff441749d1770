-- ===== src/Qkc/PqcSource/Keys.antt =====
-- qkc/src/pqc_source.rs: `enc_keys` and `dec_keys`.
use dkms.Prelude.{ℕ, length, Option, none, some, List, [], ◌∷◌, ◌++◌, if◌then◌else◌}
use dkms.Prelude.Assoc.{nat_keys}
use dkms.Prelude.Bytes.{Bytes}
use dkms.Prelude.Outcome.{Outcome, ok, err, panic, ◌>>=◌}
use dkms.Prelude.Sets.{contains, add}
use dkms.Qkc.Error.{QkcError}
use dkms.Qkc.KeyStore.{OtpKey}
use dkms.Qkc.SecretStore.{SecretStore, lowest}
use dkms.Qkc.PqcSource.{
  PqcKeySource, Arrivals, active_epoch, await_any, await_epoch, derive_key, epoch_of, is_below,
  make_keys, max_of, resync_if, tick_if, timeout_err,
}

-- The source and the store that a call leaves, and its result.
abbrev pub Answer : Type 0
Answer = PqcKeySource × SecretStore × Outcome QkcError (List OtpKey)

module _ (expand : Bytes → Bytes → ℕ → Option Bytes) where
  -- With the secret of the epoch, where there is one; the clock counts after the keys are made.
  unfoldable pub enc_from :
      PqcKeySource → ℕ → List ℕ → (SecretStore × Arrivals) × Option Bytes → Answer
  enc_from p epoch uuids ((s, later), none) = (p, s, err timeout_err)
  enc_from p epoch uuids ((s, later), some secret) = elim (make_keys expand p secret epoch uuids) [
    | ok keys ↦ (record p { clock = tick_if p.clock (length uuids) }, s, ok keys)
    | err e ↦ (p, s, err e)
    | panic ↦ (p, s, panic)
  ]

  unfoldable pub enc_at : PqcKeySource → List ℕ → (SecretStore × Arrivals) × Option ℕ → Answer
  enc_at p uuids ((s, later), none) = (p, s, err timeout_err)
  enc_at p uuids ((s, later), some high) =
      let epoch = active_epoch p s high in enc_from p epoch uuids (await_epoch s epoch later)

  -- As many keys as UUIDs are drawn.
  unfoldable pub enc_keys : PqcKeySource → SecretStore → Arrivals → List ℕ → Answer
  enc_keys p s later [] = (p, s, ok [])
  enc_keys p s later (uuid ∷ uuids) = enc_at p (uuid ∷ uuids) (await_any s later)

  -- What a round of `dec_keys` leaves: the store, the epochs that timed out, and the key if any.
  abbrev pub Round : Type 0
  Round = (SecretStore × List ℕ) × Outcome QkcError (List OtpKey)

  unfoldable pub dec_found :
      PqcKeySource → List ℕ → ℕ → (SecretStore × Arrivals) × Option Bytes → Round
  dec_found p dead id ((s, later), none) = ((s, add (epoch_of id) dead), ok [])
  dec_found p dead id ((s, later), some secret) =
      ((s, dead), derive_key expand p secret id >>= λ k. ok (k ∷ []))

  unfoldable pub dec_one : PqcKeySource → Option ℕ → SecretStore → List ℕ → ℕ → Arrivals → Round
  dec_one p floor s dead id later =
      if is_below (epoch_of id) floor
      then ((s, dead), ok [])
      else if contains dead (epoch_of id)
      then ((s, dead), ok [])
      else dec_found p dead id (await_epoch s (epoch_of id) later)

  -- `for id in ids`, each id with what comes while it is waited for
  unfoldable pub dec_each :
      PqcKeySource → Option ℕ → SecretStore × List ℕ → List (ℕ × Arrivals) → Round
  dec_each p floor held [] = (held, ok [])
  dec_each p floor held (id ∷ ids) =
      let first = dec_one p floor held.0 held.1 id.0 id.1 in
      let others = dec_each p floor first.0 ids in
      (others.0, first.1 >>= λ a. others.1 >>= λ b. ok (a ++ b))

  unfoldable pub dec_keys :
      PqcKeySource
      → SecretStore
      → List (ℕ × Arrivals)
      → SecretStore × Outcome QkcError (List OtpKey)
  dec_keys p s [] = (s, ok [])
  dec_keys p s (id ∷ ids) =
      let all = dec_each p (lowest s) (s, []) (id ∷ ids) in
      (resync_if all.0.0 (max_of all.0.1), all.1)
