-- ===== src/Prelude/Epochs/Lookup.antt =====
-- What is held for an epoch after a change.
use dkms.Prelude.Tests.{ltb, ◌==◌, if◌then◌else◌, choose, Bool-cases}
use dkms.Prelude.Lists.{length, All}
use dkms.Prelude.Bytes.{Bytes}
use dkms.Prelude.Assoc.{nat_keys, lookup, some_eq}
use Prim.Native.Nat.{ℕ, suc, ◌≤◌, ◌<◌}
use mathlib.Core.Path.{◌≡◌, refl}
use mathlib.Core.Logic.{inl, inr}
use mathlib.Core.Option.{Option, none, some}
use mathlib.Core.List.{[], ◌∷◌}
use native.Mathlib.Omega.{arith}
use dkms.Prelude.Epochs.{Secrets, put, evict, first_epoch, Above, IsSorted}
use dkms.Prelude.Epochs.Order.{Above-IsSorted}

pub lookup-Above : (lo e : ℕ) (m : Secrets) → Above lo m → e ≤ lo → lookup e m ≡ none
unfolding lookup
lookup-Above lo e [] a h = refl
lookup-Above lo e ((j, v) ∷ m) a h =
    choose (j == e) (λ (r : Option Bytes). r ≡ none) (λ x. absurd (ground arith))
      (λ x. lookup-Above j e m a.1 (omega (arith, a.0)))

pub Above-lower : (lo e : ℕ) (m : Secrets) → lo < e → Above e m → Above lo m
Above-lower lo e [] h a = tt
Above-lower lo e ((j, v) ∷ m) h a = (omega (arith, a.0), a.1)

pub lookup-put :
    (e epoch : ℕ) (secret : Bytes) (m : Secrets)
    → lookup e (put epoch secret m) ≡ (if epoch == e then some secret else lookup e m)
unfolding lookup put
lookup-put e epoch secret [] = refl
lookup-put e epoch secret ((j, v) ∷ m) = ground (arith, lookup-put e epoch secret m)

pub Above-evict : (lo keep : ℕ) (m : Secrets) → Above lo m → Above lo (evict keep m)
unfolding evict
Above-evict lo keep [] a = tt
Above-evict lo keep ((e, v) ∷ m) a =
    choose (ltb keep (suc (length m))) (Above lo)
      (λ l. Above-evict lo keep m (Above-lower lo e m a.0 a.1)) (λ l. a)

pub Above-first : (j lo : ℕ) (m : Secrets) → Above j m → first_epoch m ≡ some lo → j < lo
unfolding first_epoch
Above-first j lo [] a h = cc
Above-first j lo ((e, v) ∷ m) a h = omega (arith, a.0, some_eq h)

-- An eviction takes the lowest epochs and leaves the others.
pub lookup-evict :
    (e keep lo : ℕ) (m : Secrets)
    → IsSorted m
    → first_epoch (evict keep m) ≡ some lo
    → lookup e (evict keep m) ≡ (if ltb e lo then none else lookup e m)
unfolding lookup evict first_epoch
lookup-evict e keep lo [] a h = cc
lookup-evict e keep lo ((j, v) ∷ m) a h = elim (Bool-cases (ltb keep (suc (length m)))) [
  | inl full ↦
      let h' : first_epoch (evict keep m) ≡ some lo = rw full at h in
      let below = Above-first j lo (evict keep m) (Above-evict j keep m a) h' in
      rw full (ground (arith, lookup-evict e keep lo m (Above-IsSorted j m a) h'))
  | inr room ↦
      let same : j ≡ lo = some_eq (rw room at h) in rw room (ground (arith, lookup-Above j e m a))
]

-- An eviction brings nothing back.
pub evict_missing : (e keep : ℕ) (m : Secrets) → lookup e m ≡ none → lookup e (evict keep m) ≡ none
unfolding lookup evict
evict_missing e keep [] h = refl
evict_missing e keep ((j, v) ∷ m) h = ground (arith, evict_missing e keep m)

-- The highest epoch stays, where one at least is kept.
pub lookup-evict_highest :
    (epoch keep : ℕ) (secret : Bytes) (m : Secrets)
    → 0 < keep
    → All (λ (x : ℕ × Bytes). x.0 < epoch) m
    → lookup epoch (evict keep (put epoch secret m)) ≡ some secret
unfolding lookup evict put
lookup-evict_highest epoch keep secret [] pos b = ground arith
lookup-evict_highest epoch keep secret ((e, v) ∷ m) pos b =
    ground (
      arith,
      lookup-evict_highest epoch keep secret m pos b.1,
      lookup-put epoch epoch secret m,
      b.0,
    )
