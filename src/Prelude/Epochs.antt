-- ===== src/Prelude/Epochs.antt =====
-- Maps by epoch (`BTreeMap<u32, …>` of secrets) as the lists of their entries, lowest epoch first.
pub mod Order
pub mod Lookup
use dkms.Prelude.Tests.{ltb, ◌==◌, if◌then◌else◌}
use dkms.Prelude.Lists.{length}
use dkms.Prelude.Bytes.{Bytes}
use Prim.Native.Nat.{ℕ, suc, ◌<◌}
use mathlib.Core.Option.{Option, none, some}
use mathlib.Core.List.{List, [], ◌∷◌}

abbrev pub Secrets : Type 0
Secrets = List (ℕ × Bytes)

-- `BTreeMap::insert`
unfoldable pub put : ℕ → Bytes → Secrets → Secrets
put epoch secret [] = (epoch, secret) ∷ []
put epoch secret ((e, v) ∷ m) =
    let rest = put epoch secret m in
    if ltb epoch e
    then (epoch, secret) ∷ (e, v) ∷ m
    else if epoch == e
    then (epoch, secret) ∷ m
    else (e, v) ∷ rest

-- `while m.len() > keep { … }`, which takes the lowest epoch each time
unfoldable pub evict : ℕ → Secrets → Secrets
evict keep [] = []
evict keep (e ∷ m) = let rest = evict keep m in if ltb keep (suc (length m)) then rest else e ∷ m

-- `m.split_off(&epoch)`
unfoldable pub split_off : ℕ → Secrets → Secrets
split_off epoch [] = []
split_off epoch ((e, v) ∷ m) =
    let rest = split_off epoch m in if ltb e epoch then rest else (e, v) ∷ m

unfoldable pub last_epoch : Secrets → Option ℕ
last_epoch [] = none
last_epoch ((e, v) ∷ []) = some e
last_epoch ((e, v) ∷ x ∷ m) = last_epoch (x ∷ m)

unfoldable pub first_epoch : Secrets → Option ℕ
first_epoch [] = none
first_epoch ((e, v) ∷ m) = some e

-- The epochs rise, and are above what is given.
abbrev pub Above : ℕ → Secrets → Type 0
Above lo [] = Unit
Above lo ((e, v) ∷ m) = (lo < e) × Above e m

abbrev pub IsSorted : Secrets → Type 0
IsSorted [] = Unit
IsSorted ((e, v) ∷ m) = Above e m
