-- ===== src/Qkc/Routing/Table.antt =====
-- On `sanitise`, `replace` and `update` of qkc/src/routing.rs.
use dkms.Prelude.{
  ℕ, ◌<◌, ◌≡◌, refl, ap, subst, ◌∙◌, ==_iff, choose, Option, none, some, List, [], ◌∷◌, All, arith,
  ltb, inl, inr, Bool-cases, if◌then◌else◌, ◌==◌,
}
use dkms.Prelude.Assoc.{nat_keys, lookup, insert, remove, lookup-insert, lookup-remove, IsUnique}
use dkms.Prelude.Sets.{contains}
use dkms.Qkc.Routing.{
  NextHop, Table, ForwardingTable, positive_hops, put_hops, sanitise, insert_all, remove_all,
  update,
}

-- Hops that can be picked: at least one, each with a positive weight.
abbrev pub IsUsable : List NextHop → Type 0
IsUsable [] = ⊥
IsUsable (h ∷ hs) = (0 < h.weight) × All (λ (g : NextHop). 0 < g.weight) hs

-- What a table answers for a destination, where hops are held there.
abbrev pub IsUsable? : Option (List NextHop) → Type 0
IsUsable? none = Unit
IsUsable? (some hops) = IsUsable hops

pub positive_hops-All :
    (hops : List NextHop) → All (λ (g : NextHop). 0 < g.weight) (positive_hops hops)
unfolding positive_hops
positive_hops-All [] = tt
positive_hops-All (h ∷ hs) = elim (Bool-cases (ltb 0 h.weight)) [
  | inl e ↦ rw e (ground arith, positive_hops-All hs)
  | inr e ↦ rw e (positive_hops-All hs)
]

-- What is held for a destination, without the hops that have no weight.
unfoldable pub clean : List NextHop → Option (List NextHop)
clean [] = none
clean (h ∷ hs) = some (h ∷ hs)

abbrev pub sanitised : Option (List NextHop) → Option (List NextHop)
sanitised none = none
sanitised (some hops) = clean (positive_hops hops)

lookup-put_hops :
    (d dst : ℕ) (hops : List NextHop) (t : Table)
    → lookup dst t ≡ none
    → lookup d (put_hops dst hops t) ≡ (if dst == d then clean hops else lookup d t)
unfolding put_hops lookup clean
lookup-put_hops d dst [] t h =
    ground (arith, ==_iff dst d, λ (e : dst ≡ d). subst (λ i. lookup i t ≡ none) e h)
lookup-put_hops d dst (g ∷ hops) t h = refl

-- What a table that holds no destination twice holds after `sanitise`.
pub lookup-sanitise :
    (d : ℕ) (t : Table) → IsUnique t → lookup d (sanitise t) ≡ sanitised (lookup d t)
unfolding sanitise lookup IsUnique
lookup-sanitise d [] u = refl
lookup-sanitise d ((dst, hops) ∷ t) u =
    let absent = lookup-sanitise dst t u.1 ∙ ap sanitised u.0 in
    rw (lookup-put_hops d dst (positive_hops hops) (sanitise t) absent) (
      choose (dst == d)
        (λ (r : Option (List NextHop)). r ≡ sanitised (if dst == d then some hops else lookup d t))
        (λ e. rw e) (λ e. rw e (lookup-sanitise d t u.1)))

put_hops-IsUnique :
    (dst : ℕ) (kept : List NextHop) (t : Table)
    → lookup dst t ≡ none
    → IsUnique t
    → IsUnique (put_hops dst kept t)
unfolding put_hops IsUnique
put_hops-IsUnique dst [] t h u = u
put_hops-IsUnique dst (g ∷ kept) t h u = (h, u)

sanitise-IsUnique : (t : Table) → IsUnique t → IsUnique (sanitise t)
unfolding sanitise IsUnique
sanitise-IsUnique [] u = u
sanitise-IsUnique ((dst, hops) ∷ t) u =
    put_hops-IsUnique dst (positive_hops hops) (sanitise t)
      (lookup-sanitise dst t u.1 ∙ ap sanitised u.0) (sanitise-IsUnique t u.1)

-- The first of two results that there is.
abbrev pub or_held : Option (List NextHop) → Option (List NextHop) → Option (List NextHop)
or_held none held = held
or_held (some hops) held = some hops

lookup-insert_all :
    (d : ℕ) (updates t : Table)
    → IsUnique updates
    → lookup d (insert_all updates t) ≡ or_held (lookup d updates) (lookup d t)
unfolding insert_all IsUnique lookup
lookup-insert_all d [] t u = refl
lookup-insert_all d ((dst, hops) ∷ updates) t u =
    rw (lookup-insert_all d updates (insert dst hops t) u.1, lookup-insert dst d hops t)
      (elim (Bool-cases (dst == d)) [
        | inl e ↦
            let absent : lookup d updates ≡ none =
              subst (λ i. lookup i updates ≡ none) ((==_iff dst d).0 e) u.0 in
            rw (e, absent)
        | inr e ↦ rw e
      ])

lookup-remove_all :
    (d : ℕ) (removes : List ℕ) (t : Table)
    → lookup d (remove_all removes t) ≡ (if contains removes d then none else lookup d t)
unfolding remove_all contains
lookup-remove_all d [] t = refl
lookup-remove_all d (r ∷ removes) t =
    rw (lookup-remove_all d removes (remove r t), lookup-remove r d t)
      (elim (Bool-cases (r == d)) [
        | inl e ↦ rw e (elim (Bool-cases (contains removes d)) [ inl c ↦ rw c | inr c ↦ rw c ])
        | inr e ↦ rw e
      ])

-- After an update a destination that is removed has no hops; any other one has those of positive
-- weight that the update gives for it, and the hops that it had where the update gives it none of
-- positive weight. The update holds no destination twice.
pub lookup-update :
    (t : ForwardingTable) (updates : Table) (removes : List ℕ) (d : ℕ)
    → IsUnique updates
    → lookup d (update t updates removes).table ≡ (
        if contains removes d
        then none
        else or_held (sanitised (lookup d updates)) (lookup d t.table))
unfolding update
lookup-update t updates removes d u =
    rw (lookup-remove_all d removes (insert_all (sanitise updates) t.table)) (
      rw (lookup-insert_all d (sanitise updates) t.table (sanitise-IsUnique updates u))
        (rw (lookup-sanitise d updates u)))
