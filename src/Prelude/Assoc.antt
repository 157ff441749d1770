-- ===== src/Prelude/Assoc.antt =====
-- Maps (`DashMap`, `HashMap`) as association lists, over keys with a Boolean equality. The code
-- reads maps by key and never relies on an order of iteration.
use Prim.Native.Nat.{ℕ}
use Prim.Native.String.{String}
use text.Mathlib.Text.{◌==◌ as str_eq}
use text.Mathlib.TextEquality.{eq_iff}
use mathlib.Core.Path.{◌≡◌, refl}
use mathlib.Core.Logic.{◌↔◌, inl, inr}
use mathlib.Core.Bool.{Bool, true}
use mathlib.Core.Option.{Option, none, some}
use mathlib.Core.List.{List, [], ◌∷◌}
use native.Mathlib.Omega.{arith}
use Prim.Native.Nat.{◌+◌}
use mathlib.Core.Path.{ap, subst}
use dkms.Prelude.Tests.{Bool-cases}
use dkms.Prelude.Tests.{if◌then◌else◌, ◌==◌ as nat_beq, ==_iff}

-- Keys that can be tested for equality.
pub record IsKey {ℓ} (K : Type ℓ) : Type ℓ where
  pub test : K → K → Bool
  pub agrees : (j k : K) → (test j k ≡ true) ↔ (j ≡ k)

instance abbrev pub string_keys : IsKey String
string_keys = record { test = str_eq; agrees = eq_iff }

-- The test that an instance gives.
infix 50 ◌==◌
abbrev pub ◌==◌ {ℓ} : {K : Type ℓ} ⦃key : IsKey K⦄ → K → K → Bool
◌==◌ ⦃key⦄ = key.test

instance abbrev pub nat_keys : IsKey ℕ
nat_keys = record { test = nat_beq; agrees = ==_iff }

pub beq_refl {ℓ} : {A : Type ℓ} ⦃e : IsKey A⦄ (a : A) → (a == a) ≡ true
beq_refl ⦃e⦄ a = (e.agrees a a).1 refl

abbrev pub Assoc {ℓ κ} : Type ℓ → Type κ → Type (ℓ ⊔ κ)
Assoc K V = List (K × V)

pub some_eq {ℓ} : {A : Type ℓ} {a b : A} → some a ≡ some b → a ≡ b
some_eq h = cc

found {ℓ} : {A : Type ℓ} (v : A) → some v ≡ none → ⊥
found v h = cc

module _ {ℓ κ} {K : Type ℓ} {V : Type κ} ⦃eq : IsKey K⦄ where
  unfoldable pub lookup : K → Assoc K V → Option V
  lookup k [] = none
  lookup k ((j, v) ∷ m) = if j == k then some v else lookup k m

  unfoldable pub remove : K → Assoc K V → Assoc K V
  remove k [] = []
  remove k ((j, v) ∷ m) = let rest = remove k m in if j == k then rest else (j, v) ∷ rest

  unfoldable pub insert : K → V → Assoc K V → Assoc K V
  unfolding remove
  insert k v m = (k, v) ∷ remove k m

  pub lookup-remove :
      (k j : K) (m : Assoc K V) → lookup j (remove k m) ≡ (if k == j then none else lookup j m)
  unfolding lookup remove
  lookup-remove k j [] = ground arith
  lookup-remove k j ((i, v) ∷ m) =
      ground (arith, lookup-remove k j m, eq.agrees i k, eq.agrees i j, eq.agrees k j)

  pub lookup-insert :
      (k j : K) (v : V) (m : Assoc K V)
      → lookup j (insert k v m) ≡ (if k == j then some v else lookup j m)
  unfolding lookup insert
  lookup-insert k j v m = ground (arith, lookup-remove k j m)

  pub lookup-insert_self : (k : K) (v : V) (m : Assoc K V) → lookup k (insert k v m) ≡ some v
  lookup-insert_self k v m = ground (arith, lookup-insert k k v m, beq_refl k)

  -- No key is held twice.
  unfoldable pub IsUnique : Assoc K V → Type κ
  IsUnique [] = Unit
  IsUnique ((k, v) ∷ m) = (lookup k m ≡ none) × IsUnique m

  -- The sum of a number read from each value.
  unfoldable pub total : (V → ℕ) → Assoc K V → ℕ
  total f [] = 0
  total f ((k, v) ∷ m) = f v + total f m

  -- `entry(k).or_insert(v)`
  unfoldable pub or_insert : K → V → Assoc K V → Assoc K V
  or_insert k v m = elim (lookup k m) [ none ↦ insert k v m | some u ↦ m ]

  pub remove-IsUnique : (k : K) (m : Assoc K V) → IsUnique m → IsUnique (remove k m)
  unfolding IsUnique remove
  remove-IsUnique k [] u = u
  remove-IsUnique k ((j, v) ∷ m) u = elim (Bool-cases (j == k)) [
    | inl e ↦ rw e (remove-IsUnique k m u.1)
    | inr n ↦ rw n (ground (arith, lookup-remove k j m, u.0), remove-IsUnique k m u.1)
  ]

  pub lookup-remove_self : (k : K) (m : Assoc K V) → lookup k (remove k m) ≡ none
  lookup-remove_self k m = ground (arith, lookup-remove k k m, beq_refl k)

  pub insert-IsUnique : (k : K) (v : V) (m : Assoc K V) → IsUnique m → IsUnique (insert k v m)
  unfolding IsUnique insert
  insert-IsUnique k v m u = (lookup-remove_self k m, remove-IsUnique k m u)

  pub remove_missing : (k : K) (m : Assoc K V) → lookup k m ≡ none → remove k m ≡ m
  unfolding lookup remove
  remove_missing k [] h = refl
  remove_missing k ((j, v) ∷ m) h = elim (Bool-cases (j == k)) [
    | inl e ↦ absurd (found v (rw e at h))
    | inr n ↦ rw n (ap (λ r. (j, v) ∷ r) (remove_missing k m (rw n at h)))
  ]

  pub total-remove :
      (f : V → ℕ) (k : K) (v : V) (m : Assoc K V)
      → IsUnique m
      → lookup k m ≡ some v
      → f v + total f (remove k m) ≡ total f m
  unfolding lookup remove total IsUnique
  total-remove f k v [] u h = cc
  total-remove f k v ((j, w) ∷ m) u h = elim (Bool-cases (j == k)) [
    | inl x ↦
        let same = some_eq (rw x at h) in
        let absent = subst (λ i. lookup i m ≡ none) ((eq.agrees j k).0 x) u.0 in
        rw (x, remove_missing k m absent, same)
    | inr n ↦ rw n (omega (arith, total-remove f k v m u.1 (rw n at h)))
  ]

  pub total-insert_new :
      (f : V → ℕ) (k : K) (v : V) (m : Assoc K V)
      → lookup k m ≡ none
      → total f (insert k v m) ≡ f v + total f m
  unfolding insert total
  total-insert_new f k v m h = rw (remove_missing k m h)

  pub total-insert :
      (f : V → ℕ) (k : K) (u v : V) (m : Assoc K V)
      → IsUnique m
      → lookup k m ≡ some u
      → f u + total f (insert k v m) ≡ f v + total f m
  unfolding insert total
  total-insert f k u v m i h = omega (arith, total-remove f k u m i h)

  -- What is removed after an insertion of the same key is removed before it.
  pub remove-insert : (k : K) (v : V) (m : Assoc K V) → remove k (insert k v m) ≡ remove k m
  unfolding insert remove
  remove-insert k v m = rw (beq_refl k) (remove_missing k (remove k m) (lookup-remove_self k m))
