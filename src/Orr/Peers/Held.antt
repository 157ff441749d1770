-- ===== src/Orr/Peers/Held.antt =====
-- On the secrets that `PeerRegistry` of orr/src/peers.rs holds.
use dkms.Prelude.{
  ℕ, max, ==_refl, ◌<◌, ◌≡◌, refl, false, String, Option, none, some, arith, All, inl, inr,
  Option-cases,
}
use dkms.Prelude.Assoc.{
  Assoc, string_keys, nat_keys, lookup, insert, remove, lookup-insert_self, lookup-remove_self,
}
use dkms.Prelude.Bytes.{Bytes}
use dkms.Prelude.Epochs.{Secrets, put, evict}
use dkms.Prelude.Epochs.Lookup.{lookup-put, lookup-evict_highest, evict_missing}
use dkms.Orr.Peers.{
  PeerRegistry, modify_at, modified, taken, or_default, is_held, set_master_for_epoch,
  master_for_epoch, drop_old_epochs_for, store_ephemeral_sk, take_ephemeral_sk, has_ephemeral_sk,
  max_ephemeral_per_peer,
}

pub lookup-modify_at :
    (k : String) (f : Secrets → Secrets) (m : Assoc String Secrets) {s : Secrets}
    → lookup k m ≡ some s
    → lookup k (modify_at k f m) ≡ some (f s)
unfolding modify_at modified
lookup-modify_at k f m {s} h = rw h (lookup-insert_self k (f s) m)

-- Every epoch that is held for the peer is below the one that is given.
abbrev pub IsAhead : ℕ → Option Secrets → Type 0
IsAhead epoch o = All (λ (x : ℕ × Bytes). x.0 < epoch) (or_default o)

-- The newest secret is held after the others were dropped.
pub master_for_epoch-set :
    (p : PeerRegistry) (orr_id : String) (epoch keep : ℕ) (secret : Bytes)
    → IsAhead epoch (lookup orr_id p.master_secrets)
    → master_for_epoch
        (drop_old_epochs_for (set_master_for_epoch p orr_id epoch secret) orr_id keep)
        orr_id
        epoch
      ≡ some secret
unfolding master_for_epoch drop_old_epochs_for set_master_for_epoch or_default
master_for_epoch-set p orr_id epoch keep secret ahead =
    let m = lookup orr_id p.master_secrets in
    let held =
      lookup-modify_at orr_id (evict (max keep 2))
        (insert orr_id (put epoch secret (or_default m)) p.master_secrets)
        (lookup-insert_self orr_id (put epoch secret (or_default m)) p.master_secrets) in
    rw held (lookup-evict_highest epoch (max keep 2) secret (or_default m) (omega arith) ahead)

pub master_for_epoch-set_self :
    (p : PeerRegistry) (orr_id : String) (epoch : ℕ) (secret : Bytes)
    → master_for_epoch (set_master_for_epoch p orr_id epoch secret) orr_id epoch ≡ some secret
unfolding master_for_epoch set_master_for_epoch
master_for_epoch-set_self p orr_id epoch secret =
    let m = or_default (lookup orr_id p.master_secrets) in
    rw (
      lookup-insert_self orr_id (put epoch secret m) p.master_secrets,
      lookup-put epoch epoch secret m,
      ==_refl epoch,
    )

-- A key that was stored for the newest epoch is taken once.
pub take-store_ephemeral_sk :
    (p : PeerRegistry) (orr_id : String) (epoch : ℕ) (secret : Bytes)
    → IsAhead epoch (lookup orr_id p.ephemeral_sks)
    → (take_ephemeral_sk (store_ephemeral_sk p orr_id epoch secret) orr_id epoch).1 ≡ some secret
unfolding take_ephemeral_sk store_ephemeral_sk or_default
take-store_ephemeral_sk p orr_id epoch secret ahead =
    let m = or_default (lookup orr_id p.ephemeral_sks) in
    rw
      (lookup-insert_self orr_id (evict max_ephemeral_per_peer (put epoch secret m))
        p.ephemeral_sks)
      (lookup-evict_highest epoch max_ephemeral_per_peer secret m (omega arith) ahead)

pub has-take_ephemeral_sk :
    (p : PeerRegistry) (orr_id : String) (epoch : ℕ)
    → has_ephemeral_sk (take_ephemeral_sk p orr_id epoch).0 orr_id epoch ≡ false
unfolding has_ephemeral_sk take_ephemeral_sk
has-take_ephemeral_sk p orr_id epoch = elim (Option-cases (lookup orr_id p.ephemeral_sks)) [
  | inl n ↦ rw (taken, n) (rw n)
  | inr (m, h) ↦ rw (
    taken,
    h,
    lookup-insert_self orr_id (remove epoch m) p.ephemeral_sks,
    lookup-remove_self epoch m,
  )
]

is_held-none : (o : Option Bytes) → is_held o ≡ false → o ≡ none
unfolding is_held
is_held-none none h = refl
is_held-none (some b) h = cc

pub has-drop_old_epochs_for :
    (p : PeerRegistry) (orr_id : String) (epoch keep : ℕ)
    → has_ephemeral_sk p orr_id epoch ≡ false
    → has_ephemeral_sk (drop_old_epochs_for p orr_id keep) orr_id epoch ≡ false
unfolding has_ephemeral_sk drop_old_epochs_for modify_at
has-drop_old_epochs_for p orr_id epoch keep h =
    elim (Option-cases (lookup orr_id p.ephemeral_sks)) [
      | inl n ↦ rw (modified, n) (rw n)
      | inr (m, e) ↦ rw (
        modified,
        e,
        lookup-insert_self orr_id (evict (max keep 2) m) p.ephemeral_sks,
        evict_missing epoch (max keep 2) m (is_held-none (lookup epoch m) (rw e at h)),
      )
    ]
