-- ===== src/Qkc/Handshake/Relink.antt =====
-- qkc/src/pqc_handshake.rs: `establish_up_to` and `relink`, which renews the epochs of a link above
-- those of both ends. `establish` is a function from the handshake and an epoch to what it leaves and
-- whether it succeeded; the clock is an argument, in milliseconds.
use dkms.Prelude.{
  ℕ, zero, suc, ◌+◌, ◌-◌, ◌^◌, Bool, true, false, Option, none, some, [], ◌∷◌, ltb, leb, ◌==◌,
  if◌then◌else◌,
}
use dkms.Prelude.Assoc.{Assoc}
use dkms.Qkc.SecretStore.{highest, prune_below as prune_secrets}
use dkms.Qkc.Handshake.{PqcHandshake}
use dkms.Qkc.Handshake.Handlers.{next_own, resync_base}

abbrev pub relink_min_interval : ℕ
relink_min_interval = 5000

-- `retain(|e, _| *e >= base)`
unfoldable pub retain_from {ℓ} : {A : Type ℓ} → (base : ℕ) → Assoc ℕ A → Assoc ℕ A
retain_from base [] = []
retain_from base ((e, a) ∷ m) =
    let rest = retain_from base m in if leb base e then (e, a) ∷ rest else rest

-- With the number of epochs that are dropped.
unfoldable pub prune_below : PqcHandshake → ℕ → PqcHandshake × ℕ
unfolding retain_from
prune_below p base =
    let (store, dropped) = prune_secrets p.store base in
    (
      record p {
        store = store;
        pending_sk = retain_from base p.pending_sk;
        pending_pk = retain_from base p.pending_pk;
        resp_cache = retain_from base p.resp_cache;
      },
      dropped,
    )

module _ (establish : PqcHandshake → ℕ → PqcHandshake × Bool) where
  unfoldable pub establish_next :
      (PqcHandshake → PqcHandshake × Bool) → PqcHandshake × Bool → PqcHandshake × Bool
  establish_next rest (p, false) = (p, false)
  establish_next rest (p, true) = rest p

  -- `for epoch in from..`, for that many epochs
  unfoldable pub establish_from : (count : ℕ) → PqcHandshake → (epoch : ℕ) → PqcHandshake × Bool
  unfolding establish_next
  establish_from zero p epoch = (p, true)
  establish_from (suc n) p epoch =
      establish_next (λ q. establish_from n q (epoch + 1)) (establish p epoch)

  unfoldable pub establish_up_to : PqcHandshake → (target : ℕ) → PqcHandshake × Bool
  unfolding establish_from next_own
  establish_up_to p target =
      let from = next_own (highest p.store) in establish_from (target + 1 - from) p from

  -- Where all epochs were established, those below the first are dropped.
  unfoldable pub relinked : (base aim : ℕ) → PqcHandshake × Bool → PqcHandshake × Option (ℕ × Bool)
  unfolding prune_below
  relinked base aim (p, false) = (p, some (aim, false))
  relinked base aim (p, true) = ((prune_below p base).0, some (aim, true))

  unfoldable pub relink_at : PqcHandshake → ℕ × ℕ → PqcHandshake × Option (ℕ × Bool)
  unfolding relinked establish_from
  relink_at p (base, aim) =
      if aim == 2 ^ 32 - 1
      then (p, none)
      else relinked base aim (establish_from (aim + 1 - base) p base)

  unfoldable pub is_recent : Option ℕ → (now : ℕ) → Bool
  is_recent none now = false
  is_recent (some prev) now = ltb (now - prev) relink_min_interval

  unfoldable pub relink : PqcHandshake → (now peer_epoch : ℕ) → PqcHandshake × Option (ℕ × Bool)
  unfolding is_recent relink_at resync_base
  relink p now peer_epoch =
      if is_recent p.last_relink now
      then (p, none)
      else relink_at (record p { last_relink = some now })
          (resync_base (highest p.store) peer_epoch p.lookahead)
