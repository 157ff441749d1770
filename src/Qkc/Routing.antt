-- ===== src/Qkc/Routing.antt =====
-- qkc/src/routing.rs: `ForwardingTable`, the weighted next hops of a link node. The swaps of the
-- tables are steps on the record; ids are numbers and a sum of weights is cut to 64 bits.
pub mod Pick
pub mod Table
pub mod Commands
pub mod Grades
use dkms.Prelude.{
  ℕ, ◌+◌, ◌%◌, ◌^◌, Bool, true, false, Option, none, some, List, [], ◌∷◌, ltb, ◌==◌, if◌then◌else◌,
}
use dkms.Prelude.Assoc.{Assoc, nat_keys, lookup, insert, remove}
use dkms.Prelude.Sets.{contains, add, discard}

pub record NextHop : Type 0 where
  pub qkc_id : ℕ
  pub weight : ℕ

unfoldable pub single : ℕ → NextHop
single qkc_id = record { qkc_id = qkc_id; weight = 1 }

abbrev pub Table : Type 0
Table = Assoc ℕ (List NextHop)

pub record ForwardingTable : Type 0 where
  pub table : Table
  pub qkd_table : Table
  pub direct : List ℕ
  pub direct_qkd : List ℕ

unfoldable pub new_with_grades : List ℕ → List ℕ → ForwardingTable
new_with_grades direct_neighbors direct_qkd = record {
  table = [];
  qkd_table = [];
  direct = direct_neighbors;
  direct_qkd = direct_qkd;
}

unfoldable pub new : List ℕ → ForwardingTable
unfolding new_with_grades
new direct_neighbors = new_with_grades direct_neighbors []

-- The sum of two `u64`: to exceed one, a table would need more than 2 ^ 32 hops.
unfoldable pub add_u64 : ℕ → ℕ → ℕ
add_u64 a b = (a + b) % 2 ^ 64

-- `entries.iter().map(|h| h.weight as u64).sum()`, from a first value
unfoldable pub sum_weights : ℕ → List NextHop → ℕ
sum_weights acc [] = acc
sum_weights acc (h ∷ hs) = sum_weights (add_u64 acc h.weight) hs

-- `entries.last().unwrap().qkc_id`
unfoldable pub last_id : NextHop → List NextHop → ℕ
last_id h [] = h.qkc_id
last_id h (g ∷ hs) = last_id g hs

-- The loop over the entries, where `last` is what is returned after it.
unfoldable pub pick_from : ℕ → ℕ → ℕ → List NextHop → ℕ
pick_from last bucket acc [] = last
pick_from last bucket acc (h ∷ hs) =
    let rest = pick_from last bucket (add_u64 acc h.weight) hs in
    if ltb bucket (add_u64 acc h.weight) then h.qkc_id else rest

unfoldable pub pick : List NextHop → ℕ → Option ℕ
pick [] hash = none
pick (h ∷ []) hash = some h.qkc_id
pick (h ∷ g ∷ hs) hash =
    let total = sum_weights 0 (h ∷ g ∷ hs) in
    if total == 0
    then some h.qkc_id
    else some (pick_from (last_id h (g ∷ hs)) (hash % total) 0 (h ∷ g ∷ hs))

-- `hops.into_iter().filter(|h| h.weight > 0)`
unfoldable pub positive_hops : List NextHop → List NextHop
positive_hops [] = []
positive_hops (h ∷ hs) = let rest = positive_hops hs in if ltb 0 h.weight then h ∷ rest else rest

unfoldable pub put_hops : ℕ → List NextHop → Table → Table
put_hops dst [] t = t
put_hops dst (h ∷ hs) t = (dst, h ∷ hs) ∷ t

unfoldable pub sanitise : Table → Table
sanitise [] = []
sanitise ((dst, hops) ∷ t) = put_hops dst (positive_hops hops) (sanitise t)

unfoldable pub pick_for : Option (List NextHop) → ℕ → Option ℕ
pick_for none hash = none
pick_for (some entries) hash = pick entries hash

unfoldable pub next_hop : ForwardingTable → ℕ → ℕ → Option ℕ
next_hop t dest_id hash =
    if contains t.direct dest_id then some dest_id else pick_for (lookup dest_id t.table) hash

-- `!qkd.is_empty()`
unfoldable pub is_pushed : Table → Bool
is_pushed [] = false
is_pushed (e ∷ t) = true

unfoldable pub next_hop_graded : ForwardingTable → ℕ → ℕ → Bool → Option ℕ
next_hop_graded t dest_id hash false = next_hop t dest_id hash
next_hop_graded t dest_id hash true =
    if is_pushed t.qkd_table
    then (if contains t.direct_qkd dest_id
        then some dest_id
        else pick_for (lookup dest_id t.qkd_table) hash)
    else next_hop t dest_id hash

unfoldable pub replace : ForwardingTable → Table → ForwardingTable
replace t new_table = record t { table = sanitise new_table }

unfoldable pub replace_qkd : ForwardingTable → Table → ForwardingTable
replace_qkd t new_table = record t { qkd_table = sanitise new_table }

-- `for (dest, hops) in … { next.insert(dest, hops); }`
unfoldable pub insert_all : Table → Table → Table
insert_all [] t = t
insert_all ((dest, hops) ∷ updates) t = insert_all updates (insert dest hops t)

unfoldable pub remove_all : List ℕ → Table → Table
remove_all [] t = t
remove_all (d ∷ removes) t = remove_all removes (remove d t)

unfoldable pub update : ForwardingTable → Table → List ℕ → ForwardingTable
update t updates removes = record t {
  table = remove_all removes (insert_all (sanitise updates) t.table);
}

unfoldable pub snapshot : ForwardingTable → Table
snapshot t = t.table

unfoldable pub snapshot_qkd : ForwardingTable → Table
snapshot_qkd t = t.qkd_table

unfoldable pub add_direct : ForwardingTable → ℕ → Bool → ForwardingTable
add_direct t peer_id false = record t { direct = add peer_id t.direct }
add_direct t peer_id true = record t {
  direct = add peer_id t.direct;
  direct_qkd = add peer_id t.direct_qkd;
}

unfoldable pub remove_direct : ForwardingTable → ℕ → ForwardingTable
remove_direct t peer_id = record t {
  direct = discard peer_id t.direct;
  direct_qkd = discard peer_id t.direct_qkd;
}

unfoldable pub is_direct_neighbor : ForwardingTable → ℕ → Bool
is_direct_neighbor t peer_id = contains t.direct peer_id
