-- ===== src/Qkc/Routing/Commands.antt =====
-- On commands to `ForwardingTable` of qkc/src/routing.rs, and on `next_hop`.
use dkms.Prelude.{
  ℕ, ◌<◌, ◌≡◌, refl, choose, Option, none, some, List, [], ◌∷◌, ◌↔◌, All, inl, inr, Bool-cases,
  ◌==◌, true, false, Bool,
}
use dkms.Prelude.Assoc.{nat_keys, lookup, IsUnique}
use dkms.Prelude.Sets.{contains}
use dkms.Qkc.Routing.{
  NextHop, Table, ForwardingTable, new_with_grades, pick, pick_for, next_hop, sanitise, sum_weights,
  positive_hops, replace, replace_qkd, update, add_direct, remove_direct,
}
use dkms.Qkc.Routing.Table.{
  IsUsable, IsUsable?, or_held, sanitised, clean, lookup-sanitise, positive_hops-All, lookup-update,
}

-- What the controller and the service ask of the table.
pub data Command : Type 0 where
  replace_all : Table → Command
  replace_all_qkd : Table → Command
  change : Table → List ℕ → Command
  link_up : ℕ → Bool → Command
  link_down : ℕ → Command

unfoldable pub apply : ForwardingTable → Command → ForwardingTable
apply t (replace_all new_table) = replace t new_table
apply t (replace_all_qkd new_table) = replace_qkd t new_table
apply t (change updates removes) = update t updates removes
apply t (link_up peer_id is_qkd) = add_direct t peer_id is_qkd
apply t (link_down peer_id) = remove_direct t peer_id

-- A command's map holds no destination twice.
abbrev pub IsMap : Command → Type 0
IsMap (replace_all new_table) = IsUnique new_table
IsMap (replace_all_qkd new_table) = IsUnique new_table
IsMap (change updates removes) = IsUnique updates
IsMap (link_up peer_id is_qkd) = Unit
IsMap (link_down peer_id) = Unit

unfoldable pub run : ForwardingTable → List Command → ForwardingTable
run t [] = t
run t (c ∷ cs) = run (apply t c) cs

-- What is held for a destination, in either table, is not empty and has positive weights only.
pub record IsClean (t : ForwardingTable) : Type 0 where
  pub table : (d : ℕ) → IsUsable? (lookup d t.table)
  pub qkd_table : (d : ℕ) → IsUsable? (lookup d t.qkd_table)

qkd_table-update :
    (t : ForwardingTable) (updates : Table) (removes : List ℕ)
    → (update t updates removes).qkd_table ≡ t.qkd_table
unfolding update
qkd_table-update t updates removes = refl

clean_IsUsable : (o : Option (List NextHop)) → IsUsable? (sanitised o)
unfolding clean
clean_IsUsable none = tt
clean_IsUsable (some hops) = go (positive_hops hops) (positive_hops-All hops)
  where
    go : (kept : List NextHop) → All (λ (g : NextHop). 0 < g.weight) kept → IsUsable? (clean kept)
    go [] a = tt
    go (g ∷ kept) a = a

sanitise_IsUsable : (t : Table) → IsUnique t → (d : ℕ) → IsUsable? (lookup d (sanitise t))
sanitise_IsUsable t u d = rw (lookup-sanitise d t u) (clean_IsUsable (lookup d t))

or_held_IsUsable :
    (o held : Option (List NextHop)) → IsUsable? o → IsUsable? held → IsUsable? (or_held o held)
or_held_IsUsable none held p q = q
or_held_IsUsable (some hops) held p q = p

apply-IsClean : (t : ForwardingTable) (k : Command) → IsClean t → IsMap k → IsClean (apply t k)
unfolding apply replace replace_qkd add_direct remove_direct
apply-IsClean t (replace_all new_table) c m = record {
  table = sanitise_IsUsable new_table m;
  qkd_table = c.qkd_table;
}
apply-IsClean t (replace_all_qkd new_table) c m = record {
  table = c.table;
  qkd_table = sanitise_IsUsable new_table m;
}
apply-IsClean t (change updates removes) c m = record {
  table = λ d. rw (lookup-update t updates removes d m) (
      choose (contains removes d) IsUsable? (λ e. tt)
        (λ e.
          or_held_IsUsable (sanitised (lookup d updates)) (lookup d t.table)
            (clean_IsUsable (lookup d updates)) (c.table d)));
  qkd_table = λ d. rw update_qkd (c.qkd_table d);
}
  where
    update_qkd : (update t updates removes).qkd_table ≡ t.qkd_table
    update_qkd = qkd_table-update t updates removes
apply-IsClean t (link_up peer_id true) c m = record { table = c.table; qkd_table = c.qkd_table }
apply-IsClean t (link_up peer_id false) c m = record { table = c.table; qkd_table = c.qkd_table }
apply-IsClean t (link_down peer_id) c m = record { table = c.table; qkd_table = c.qkd_table }

run-IsClean :
    (t : ForwardingTable) (cs : List Command) → IsClean t → All IsMap cs → IsClean (run t cs)
unfolding run
run-IsClean t [] c m = c
run-IsClean t (k ∷ cs) c m = run-IsClean (apply t k) cs (apply-IsClean t k c m.0) m.1

pick-some : (hops : List NextHop) (hash : ℕ) → IsUsable hops → (n : ℕ) × (pick hops hash ≡ some n)
unfolding pick
pick-some [] hash u = elim u [ ]
pick-some (h ∷ []) hash u = (h.qkc_id, refl)
pick-some (h ∷ g ∷ hs) hash u =
    choose (sum_weights 0 (h ∷ g ∷ hs) == 0) (λ (r : Option ℕ). (n : ℕ) × (r ≡ some n))
      (λ e. (h.qkc_id, refl)) (λ e. (_, refl))

next_hop-none_iff :
    (t : ForwardingTable) (dest_id hash : ℕ)
    → IsClean t
    → (next_hop t dest_id hash ≡ none)
      ↔ ((contains t.direct dest_id ≡ false) × (lookup dest_id t.table ≡ none))
unfolding next_hop pick_for
next_hop-none_iff t dest_id hash c = elim (Bool-cases (contains t.direct dest_id)) [
  | inl e ↦ rw e (λ h. cc, λ h. cc)
  | inr e ↦ rw e (λ h. (refl, go (lookup dest_id t.table) (c.table dest_id) h), λ h. rw h.1)
]
  where
    go : (o : Option (List NextHop)) → IsUsable? o → pick_for o hash ≡ none → o ≡ none
    go none u h = refl
    go (some hops) u h = let (n, e) = pick-some hops hash u in cc

new_with_grades-IsClean : (direct direct_qkd : List ℕ) → IsClean (new_with_grades direct direct_qkd)
unfolding new_with_grades lookup
new_with_grades-IsClean direct direct_qkd = record { table = λ d. tt; qkd_table = λ d. tt }

-- After any commands to a new table, whose maps hold no destination twice, what either table holds
-- for a destination is not empty and has hops of positive weight only, and a frame has no next hop
-- exactly if its destination is not a direct neighbour and the full table holds nothing for it.
pub next_hop-run :
    (direct direct_qkd : List ℕ) (cs : List Command) (dest_id hash : ℕ)
    → All IsMap cs
    → let t = run (new_with_grades direct direct_qkd) cs in
      IsClean t
      × ((next_hop t dest_id hash ≡ none)
          ↔ ((contains t.direct dest_id ≡ false) × (lookup dest_id t.table ≡ none)))
next_hop-run direct direct_qkd cs dest_id hash m =
    let clean =
      run-IsClean (new_with_grades direct direct_qkd) cs (new_with_grades-IsClean direct direct_qkd)
        m in
    (clean, next_hop-none_iff (run (new_with_grades direct direct_qkd) cs) dest_id hash clean)
