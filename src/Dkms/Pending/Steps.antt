-- ===== src/Dkms/Pending/Steps.antt =====
-- The calls of `PendingStore` of dkms/src/state/pending.rs as steps, and its invariant.
use dkms.Prelude.{
  ℕ, ◌≡◌, refl, String, Option, some, List, [], ◌∷◌, arith, leb, if◌then◌else◌, inl, inr,
  Bool-cases, Option-cases,
}
use dkms.Prelude.Assoc.{string_keys, lookup, insert as put, or_insert, IsUnique, total}
use dkms.Prelude.Sets.{contains, add}
use dkms.Dkms.Pending.{
  max_pending_per_origin, PendingEntry, PendingStore, new, is_expired, is_complete, remove_entry,
  or_zero, pending_from, insert_from_peer, insert, is_other_master, take_for_sae_of_master,
  stale_keys, remove_entries, sweep_expired, clear, force_remove,
}
use dkms.Dkms.Pending.Invariant.{
  IsValid, remove_entry-IsValid, replaced-IsValid, recounted-IsValid, added-IsValid, own-IsValid,
  overwritten-IsValid,
}

-- The calls that change a store, each with the time at which it is made.
pub data Op : Type 0 where
  peer_insert : ℕ → String → String → String → List String → List ℕ → Option ℕ → Op
  local_insert : ℕ → String → String → List String → List ℕ → Option ℕ → Op
  take : ℕ → String → String → Option String → Op
  sweep : ℕ → Op
  remove_key : String → Op
  clear_all : Op

unfoldable pub step : PendingStore → Op → PendingStore
step s (peer_insert now k o i a m ttl) = (insert_from_peer s now k o i a m ttl).0
step s (local_insert now k i a m ttl) = insert s now k i a m ttl
step s (take now k sae master) = (take_for_sae_of_master s now k sae master).0
step s (sweep now) = (sweep_expired s now).0
step s (remove_key k) = (force_remove s k).0
step s clear_all = clear s

unfoldable pub run : PendingStore → List Op → PendingStore
run s [] = s
run s (op ∷ ops) = run (step s op) ops

pub new-IsValid : (ttl : ℕ) → IsValid (new ttl)
unfolding new pending_from or_zero lookup total IsUnique
new-IsValid ttl = record { unique = tt; counted = λ o. refl; bounded = λ o. omega arith }

insert_from_peer-IsValid :
    (s : PendingStore) (now : ℕ) (k o i : String) (a : List String) (m : List ℕ) (ttl : Option ℕ)
    → IsValid s
    → IsValid (insert_from_peer s now k o i a m ttl).0
unfolding insert_from_peer pending_from
insert_from_peer-IsValid s now k o i a m ttl v =
    let counts = or_insert o 0 s.per_origin in
    let u = recounted-IsValid s o v in
    elim (Bool-cases (leb max_pending_per_origin (or_zero (lookup o counts)))) [
      | inl full ↦ rw full u
      | inr room ↦ rw room (elim (Option-cases (lookup k s.inner)) [
        | inl e ↦
            rw (e, insert_from_peer)
              (added-IsValid (record s { per_origin = counts }) k o _ u e refl (ground arith))
        | inr (d, e) ↦ rw (e, insert_from_peer) u
      ])
    ]

insert-IsValid :
    (s : PendingStore) (now : ℕ) (k i : String) (a : List String) (m : List ℕ) (ttl : Option ℕ)
    → IsValid s
    → IsValid (insert s now k i a m ttl)
unfolding insert
insert-IsValid s now k i a m ttl v = elim (Option-cases (lookup k s.inner)) [
  | inl e ↦ rw (e, insert) (own-IsValid s k _ v e refl)
  | inr (d, e) ↦ rw (e, insert) (overwritten-IsValid s k d _ v e refl)
]

take-IsValid :
    (s : PendingStore) (now : ℕ) (k sae : String) (master : Option String)
    → IsValid s
    → IsValid (take_for_sae_of_master s now k sae master).0
unfolding take_for_sae_of_master
take-IsValid s now k sae master v = elim (Option-cases (lookup k s.inner)) [
  | inl h ↦ rw (h, take_for_sae_of_master) v
  | inr (e, h) ↦
      rw (h, take_for_sae_of_master)
        (elim (Bool-cases (is_expired e now)) [
          | inl old ↦ rw old (remove_entry-IsValid s k v)
          | inr live ↦ rw live (elim (Bool-cases (contains e.authorized sae)) [
            | inr out ↦ rw out v
            | inl in_ ↦ rw in_ (elim (Bool-cases (is_other_master e master)) [
              | inl other ↦ rw other v
              | inr mine ↦ rw mine (elim (Bool-cases (contains e.retrieved sae)) [
                | inl again ↦ rw again v
                | inr first ↦ rw first (served e h)
              ])
            ])
          ])
        ])
]
  where
    served :
        (e : PendingEntry)
        → lookup k s.inner ≡ some e
        → let marked = record e { retrieved = add sae e.retrieved } in
          let u = record s { inner = put k marked s.inner } in
          IsValid (if is_complete marked then (remove_entry u k).0 else u)
    served e h =
        let marked = record e { retrieved = add sae e.retrieved } in
        let u = record s { inner = put k marked s.inner } in
        let w = replaced-IsValid s k e marked v h refl in
        elim (Bool-cases (is_complete marked)) [
          | inl c ↦ rw c (remove_entry-IsValid u k w)
          | inr c ↦ rw c w
        ]

remove_entries-IsValid :
    (s : PendingStore) (ks : List String) → IsValid s → IsValid (remove_entries s ks)
unfolding remove_entries
remove_entries-IsValid s [] v = v
remove_entries-IsValid s (k ∷ ks) v =
    remove_entries-IsValid (remove_entry s k).0 ks (remove_entry-IsValid s k v)

step-IsValid : (s : PendingStore) (op : Op) → IsValid s → IsValid (step s op)
unfolding step sweep_expired force_remove clear pending_from or_zero lookup total IsUnique
step-IsValid s (peer_insert now k o i a m ttl) v = insert_from_peer-IsValid s now k o i a m ttl v
step-IsValid s (local_insert now k i a m ttl) v = insert-IsValid s now k i a m ttl v
step-IsValid s (take now k sae master) v = take-IsValid s now k sae master v
step-IsValid s (sweep now) v = remove_entries-IsValid s (stale_keys s.inner now) v
step-IsValid s (remove_key k) v = remove_entry-IsValid s k v
step-IsValid s clear_all v = record { unique = tt; counted = λ o. refl; bounded = λ o. omega arith }

-- From a store that keeps the invariant, any sequence of calls leads to one that keeps it: no key
-- is held twice, and for each peer the counter is the number of its entries and at most
-- `max_pending_per_origin`.
pub run-IsValid : (s : PendingStore) (ops : List Op) → IsValid s → IsValid (run s ops)
unfolding run
run-IsValid s [] v = v
run-IsValid s (op ∷ ops) v = run-IsValid (step s op) ops (step-IsValid s op v)
