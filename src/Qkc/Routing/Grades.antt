-- ===== src/Qkc/Routing/Grades.antt =====
-- On `next_hop_graded` of qkc/src/routing.rs.
use dkms.Prelude.{
  ℕ, ◌≡◌, refl, map, choose, subst, sym, ◌||◌, Option, none, some, List, [], ◌∷◌, ◌⊎◌, All, ◌%◌,
  ltb, arith, inl, inr, Bool-cases, ◌==◌, true, false, Bool, ==_refl,
}
use dkms.Prelude.Assoc.{nat_keys, lookup, some_eq}
use dkms.Prelude.Sets.{contains}
use dkms.Qkc.Routing.{
  NextHop, Table, ForwardingTable, pick, pick_for, next_hop, next_hop_graded, add_u64, put_hops,
  is_pushed, sanitise, positive_hops, replace_qkd, sum_weights, last_id, pick_from,
}

abbrev pub ids : List NextHop → List ℕ
ids hops = map (λ (h : NextHop). h.qkc_id) hops

contains-last_id : (h : NextHop) (hs : List NextHop) → contains (ids (h ∷ hs)) (last_id h hs) ≡ true
unfolding last_id contains
contains-last_id h [] = rw (==_refl h.qkc_id)
contains-last_id h (g ∷ hs) = elim (Bool-cases (h.qkc_id == last_id g hs)) [
  | inl e ↦ rw e
  | inr e ↦ rw e (contains-last_id g hs)
]

or_second : (a b : Bool) → b ≡ true → (a || b) ≡ true
or_second true b h = refl
or_second false b h = h

pick_from_held :
    (last bucket acc : ℕ) (hs : List NextHop)
    → (pick_from last bucket acc hs ≡ last)
      ⊎ (contains (ids hs) (pick_from last bucket acc hs) ≡ true)
unfolding pick_from contains
pick_from_held last bucket acc [] = inl refl
pick_from_held last bucket acc (h ∷ hs) =
    choose (ltb bucket (add_u64 acc h.weight))
      (λ (r : ℕ). (r ≡ last) ⊎ (contains (ids (h ∷ hs)) r ≡ true))
      (λ e. inr (rw (==_refl h.qkc_id)))
      (λ e. elim (pick_from_held last bucket (add_u64 acc h.weight) hs) [
        | inl x ↦ inl x
        | inr y ↦ inr (or_second (h.qkc_id == pick_from last bucket (add_u64 acc h.weight) hs) _ y)
      ])

contains_first : (h : NextHop) (hs : List NextHop) → contains (ids (h ∷ hs)) h.qkc_id ≡ true
unfolding contains
contains_first h hs = rw (==_refl h.qkc_id)

-- Whatever is picked is one of the hops.
contains-pick :
    (hops : List NextHop) (hash n : ℕ) → pick hops hash ≡ some n → contains (ids hops) n ≡ true
unfolding pick
contains-pick [] hash n e = cc
contains-pick (h ∷ []) hash n e =
    subst (λ m. contains (ids (h ∷ [])) m ≡ true) (some_eq e) (contains_first h [])
contains-pick (h ∷ g ∷ hs) hash n e =
    let total = sum_weights 0 (h ∷ g ∷ hs) in
    let last = last_id h (g ∷ hs) in
    choose (total == 0) (λ (r : Option ℕ). r ≡ some n → contains (ids (h ∷ g ∷ hs)) n ≡ true)
      (λ _ x.
        subst (λ m. contains (ids (h ∷ g ∷ hs)) m ≡ true) (some_eq x) (contains_first h (g ∷ hs)))
      (λ _ x.
        subst (λ m. contains (ids (h ∷ g ∷ hs)) m ≡ true) (some_eq x)
          (elim (pick_from_held last (hash % total) 0 (h ∷ g ∷ hs)) [
            | inl y ↦ rw y (contains-last_id h (g ∷ hs))
            | inr y ↦ y
          ]))
      e

-- A next hop that the QKD links give for the destination: the destination itself, where it is a
-- direct neighbour over such a link, or one of the hops that the table of QKD routes holds for it.
abbrev pub IsQkdHop : ForwardingTable → ℕ → ℕ → Type 0
IsQkdHop t dest_id n =
    ((n ≡ dest_id) × (contains t.direct_qkd dest_id ≡ true))
    ⊎ ((hops : List NextHop) × (lookup dest_id t.qkd_table ≡ some hops)
        × (contains (ids hops) n ≡ true))

-- Once a table of QKD routes that is not empty was pushed, a frame that carries a key of QKD grade
-- and has a next hop goes to its destination, where that is a direct neighbour over a QKD link, or to
-- a hop that the table of QKD routes holds for it, whatever the table of all routes says.
pub next_hop_graded-IsQkdHop :
    (t : ForwardingTable) (dest_id hash n : ℕ)
    → is_pushed t.qkd_table ≡ true
    → next_hop_graded t dest_id hash true ≡ some n
    → IsQkdHop t dest_id n
unfolding next_hop_graded pick_for
next_hop_graded-IsQkdHop t dest_id hash n p e = elim (Bool-cases (contains t.direct_qkd dest_id)) [
  | inl d ↦ inl (sym (some_eq (rw (p, d) at e)), d)
  | inr d ↦ inr (go (lookup dest_id t.qkd_table) refl (rw (p, d) at e))
]
  where
    go :
        (o : Option (List NextHop))
        → lookup dest_id t.qkd_table ≡ o
        → pick_for o hash ≡ some n
        → (hops : List NextHop) × (lookup dest_id t.qkd_table ≡ some hops)
          × (contains (ids hops) n ≡ true)
    go none f h = cc
    go (some hops) f h = (hops, f, contains-pick hops hash n h)

positive_hops_weightless :
    (hops : List NextHop) → All (λ (h : NextHop). h.weight ≡ 0) hops → positive_hops hops ≡ []
unfolding positive_hops
positive_hops_weightless [] w = refl
positive_hops_weightless (h ∷ hops) w = ground (arith, positive_hops_weightless hops w.1, w.0)

sanitise_weightless :
    (t : Table)
    → All (λ (e : ℕ × List NextHop). All (λ (h : NextHop). h.weight ≡ 0) e.1) t
    → sanitise t ≡ []
unfolding sanitise put_hops
sanitise_weightless [] w = refl
sanitise_weightless ((dst, hops) ∷ t) w =
    rw (positive_hops_weightless hops w.0) (sanitise_weightless t w.1)

-- A push of QKD routes that holds no hop of positive weight is not told apart from no push: frames
-- of QKD grade are then routed by the table of all routes, whatever was pushed before.
pub next_hop_graded-replace_qkd :
    (t : ForwardingTable) (new_table : Table) (dest_id hash : ℕ)
    → All (λ (e : ℕ × List NextHop). All (λ (h : NextHop). h.weight ≡ 0) e.1) new_table
    → next_hop_graded (replace_qkd t new_table) dest_id hash true ≡ next_hop t dest_id hash
unfolding next_hop_graded replace_qkd next_hop is_pushed
next_hop_graded-replace_qkd t new_table dest_id hash w = rw (sanitise_weightless new_table w)
