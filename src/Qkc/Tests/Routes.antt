-- ===== src/Qkc/Tests/Routes.antt =====
-- Tables on which the theorems about the next hops are used.
use dkms.Prelude.{
  ℕ, ◌%◌, ◌^◌, ◌<◌, ◌≡◌, ◌↔◌, refl, true, false, none, some, List, [], ◌∷◌, length, arith,
}
use dkms.Prelude.Assoc.{nat_keys, lookup, IsUnique}
use dkms.Prelude.Sets.{contains}
use dkms.Qkc.Routing.{
  NextHop, Table, ForwardingTable, new_with_grades, pick, pick_for, pick_from, sum_weights, add_u64,
  last_id, next_hop, next_hop_graded, is_pushed, replace_qkd,
}
use dkms.Qkc.Routing.Pick.{get_elem?, buckets, pick-buckets}
use dkms.Qkc.Routing.Commands.{Command, change, link_up, link_down, run, IsClean, next_hop-run}
use dkms.Qkc.Routing.Grades.{IsQkdHop, next_hop_graded-IsQkdHop, next_hop_graded-replace_qkd}

abbrev hop : ℕ → ℕ → NextHop
hop id weight = record { qkc_id = id; weight = weight }

abbrev hops : List NextHop
hops = hop 5 3 ∷ hop 6 1 ∷ []

hops_fit : length (buckets hops) < 2 ^ 64
unfolding buckets
hops_fit = omega arith

pick-buckets_example : pick hops 7 ≡ get_elem? (buckets hops) (7 % length (buckets hops))
pick-buckets_example = pick-buckets hops 7 (omega arith) hops_fit

picked : pick hops 7 ≡ some 6
unfolding pick pick_from sum_weights add_u64 last_id
picked = refl

abbrev routes : ForwardingTable
routes = record {
  table = (9, hop 4 1 ∷ []) ∷ [];
  qkd_table = (9, hop 3 2 ∷ []) ∷ [];
  direct = 4 ∷ 3 ∷ [];
  direct_qkd = 3 ∷ [];
}

routes_pushed : is_pushed routes.qkd_table ≡ true
unfolding is_pushed
routes_pushed = refl

routed_over_qkd : next_hop_graded routes 9 0 true ≡ some 3
unfolding next_hop_graded is_pushed contains pick_for lookup pick
routed_over_qkd = refl

next_hop_graded-IsQkdHop_example : IsQkdHop routes 9 3
next_hop_graded-IsQkdHop_example =
    next_hop_graded-IsQkdHop routes 9 0 3 routes_pushed routed_over_qkd

abbrev weightless : Table
weightless = (9, hop 3 0 ∷ []) ∷ (8, []) ∷ []

next_hop_graded-replace_qkd_example :
    next_hop_graded (replace_qkd routes weightless) 9 0 true ≡ next_hop routes 9 0
next_hop_graded-replace_qkd_example =
    next_hop_graded-replace_qkd routes weightless 9 0 (omega arith)

abbrev updates : Table
updates = (9, hop 7 0 ∷ []) ∷ (8, hop 7 2 ∷ hop 6 0 ∷ []) ∷ []

updates-IsUnique : IsUnique updates
unfolding IsUnique lookup
updates-IsUnique = (refl, (refl, tt))

abbrev commands : List Command
commands = link_up 4 false ∷ change updates [] ∷ link_down 4 ∷ []

next_hop-run_example :
    let t = run (new_with_grades (2 ∷ []) []) commands in
    IsClean t
    × ((next_hop t 9 1 ≡ none) ↔ ((contains t.direct 9 ≡ false) × (lookup 9 t.table ≡ none)))
next_hop-run_example = next_hop-run (2 ∷ []) [] commands 9 1 (tt, (updates-IsUnique, (tt, tt)))
