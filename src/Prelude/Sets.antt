-- ===== src/Prelude/Sets.antt =====
-- Sets (`HashSet`) as lists, over elements with a Boolean equality.
use dkms.Prelude.{
  ◌≡◌, refl, sym, ap, Bool, true, false, ◌||◌, ◌&&◌, List, [], ◌∷◌, if◌then◌else◌, inl, inr,
  Bool-cases,
}
use dkms.Prelude.Assoc.{IsKey, ◌==◌}

module _ {ℓ} {A : Type ℓ} ⦃eq : IsKey A⦄ where
  unfoldable pub contains : List A → A → Bool
  contains [] x = false
  contains (y ∷ ys) x = y == x || contains ys x

  unfoldable pub add : A → List A → List A
  add x xs = if contains xs x then xs else x ∷ xs

  unfoldable pub discard : A → List A → List A
  discard x [] = []
  discard x (y ∷ ys) = let rest = discard x ys in if y == x then rest else y ∷ rest

  -- `xs.is_superset(ys)`
  unfoldable pub is_superset : List A → List A → Bool
  is_superset xs [] = true
  is_superset xs (y ∷ ys) = contains xs y && is_superset xs ys

  pub contains-add : (xs : List A) (x y : A) → contains (add x xs) y ≡ (x == y || contains xs y)
  unfolding contains add
  contains-add xs x y = elim (Bool-cases (contains xs x)) [
    | inl e ↦ rw e (elim (Bool-cases (x == y)) [
      | inl s ↦ rw (s, sym (ap (contains xs) ((eq.agrees x y).0 s)), e) refl
      | inr d ↦ rw d refl
    ])
    | inr n ↦ rw n refl
  ]
