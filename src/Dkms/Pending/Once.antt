-- ===== src/Dkms/Pending/Once.antt =====
-- On sequences of calls of `PendingStore` of dkms/src/state/pending.rs.
use dkms.Prelude.{
  ℕ, ◌≡◌, ◌≢◌, refl, sym, ◌∙◌, ap, String, Bool, false, ◌||◌, Option, none, some, List, [], ◌∷◌,
  arith, leb, inl, inr, Bool-cases, Option-cases,
}
use dkms.Prelude.Outcome.{ok}
use dkms.Prelude.Assoc.{
  ◌==◌, string_keys, lookup, insert as put, or_insert, lookup-insert, lookup-insert_self, beq_refl,
}
use dkms.Prelude.Sets.{add, contains-add}
use dkms.Dkms.Pending.{
  max_pending_per_origin, PendingEntry, PendingStore, is_complete, note_removed, or_zero,
  insert_from_peer, insert, take_for_sae_of_master, stale_keys, sweep_expired, clear, force_remove,
}
use dkms.Dkms.Pending.Steps.{
  Op, peer_insert, local_insert, take, sweep, remove_key, clear_all, step, run,
}
use dkms.Dkms.Pending.Take.{
  IsSpent, is_spent_entry, take_cases, take_for_sae_of_master_iff, remove_entry-IsSpent,
  remove_entries-IsSpent, take-IsSpent,
}

-- Does the call put an entry under the key `k`?
unfoldable pub inserts : Op → String → Bool
inserts (peer_insert now j o i a m ttl) k = j == k
inserts (local_insert now j i a m ttl) k = j == k
inserts (take now j sae master) k = false
inserts (sweep now) k = false
inserts (remove_key j) k = false
inserts clear_all k = false

unfoldable pub insert_any : List Op → String → Bool
insert_any [] k = false
insert_any (op ∷ ops) k = inserts op k || insert_any ops k

-- Whatever a peer inserts, under whatever id, the entries that were held are held unchanged.
pub lookup-insert_from_peer :
    (s : PendingStore) (now : ℕ) (k o i : String) (a : List String) (m : List ℕ) (ttl : Option ℕ)
    (j : String) (e : PendingEntry)
    → lookup j s.inner ≡ some e
    → lookup j (insert_from_peer s now k o i a m ttl).0.inner ≡ some e
unfolding insert_from_peer
lookup-insert_from_peer s now k o i a m ttl j e h =
    elim (Bool-cases
      (leb max_pending_per_origin (or_zero (lookup o (or_insert o 0 s.per_origin))))) [
        | inl full ↦ rw full h
        | inr room ↦ rw room (elim (Option-cases (lookup k s.inner)) [
          | inr (d, x) ↦ rw (x, insert_from_peer) h
          | inl x ↦
              rw (x, insert_from_peer)
                (elim (Bool-cases (k == j)) [
                  | inl t ↦ absurd (
                      clash (sym x ∙ ap (λ y. lookup y s.inner) ((string_keys.agrees k j).0 t) ∙ h))
                  | inr f ↦ rw (lookup-insert k j, f) h
                ])
        ])
      ]
  where
    clash : {d : PendingEntry} → none ≡ some d → ⊥
    clash q = cc

-- What an insertion under another key leaves.
other_peer :
    (s : PendingStore) (now : ℕ) (j o i : String) (a : List String) (m : List ℕ) (ttl : Option ℕ)
    (k : String)
    → (j == k) ≡ false
    → lookup k (insert_from_peer s now j o i a m ttl).0.inner ≡ lookup k s.inner
unfolding insert_from_peer
other_peer s now j o i a m ttl k f =
    elim (Bool-cases
      (leb max_pending_per_origin (or_zero (lookup o (or_insert o 0 s.per_origin))))) [
        | inl full ↦ rw full refl
        | inr room ↦ rw room (elim (Option-cases (lookup j s.inner)) [
          | inr (d, x) ↦ rw (x, insert_from_peer) refl
          | inl x ↦ rw (x, insert_from_peer, lookup-insert j k, f) refl
        ])
      ]

other_local :
    (s : PendingStore) (now : ℕ) (j i : String) (a : List String) (m : List ℕ) (ttl : Option ℕ)
    (k : String)
    → (j == k) ≡ false
    → lookup k (insert s now j i a m ttl).inner ≡ lookup k s.inner
unfolding insert note_removed
other_local s now j i a m ttl k f = elim (Option-cases (lookup j s.inner)) [
  | inl x ↦ rw (x, insert, lookup-insert j k, f) refl
  | inr (d, x) ↦ rw (x, insert, lookup-insert j k, f) refl
]

step-IsSpent :
    (s : PendingStore) (op : Op) (k sae : String)
    → inserts op k ≡ false
    → IsSpent s k sae
    → IsSpent (step s op) k sae
unfolding step inserts sweep_expired force_remove clear is_spent_entry lookup
step-IsSpent s (peer_insert now j o i a m ttl) k sae n h = rw (other_peer s now j o i a m ttl k n) h
step-IsSpent s (local_insert now j i a m ttl) k sae n h = rw (other_local s now j i a m ttl k n) h
step-IsSpent s (take now j x master) k sae n h = take-IsSpent s now j x master k sae h
step-IsSpent s (sweep now) k sae n h = remove_entries-IsSpent s (stale_keys s.inner now) k sae h
step-IsSpent s (remove_key j) k sae n h = remove_entry-IsSpent s j k sae h
step-IsSpent s clear_all k sae n h = refl

run-IsSpent :
    (s : PendingStore) (ops : List Op) (k sae : String)
    → insert_any ops k ≡ false
    → IsSpent s k sae
    → IsSpent (run s ops) k sae
unfolding run insert_any
run-IsSpent s [] k sae n h = h
run-IsSpent s (op ∷ ops) k sae n h =
    run-IsSpent (step s op) ops k sae (ground arith) (step-IsSpent s op k sae (ground arith) h)

marked-IsSpent :
    (s : PendingStore) (k sae : String) (e : PendingEntry)
    → IsSpent
        (record s { inner = put k (record e { retrieved = add sae e.retrieved }) s.inner })
        k
        sae
unfolding is_spent_entry
marked-IsSpent s k sae e =
    rw
      (
        lookup-insert_self k (record e { retrieved = add sae e.retrieved }) s.inner,
        contains-add e.retrieved sae sae,
        beq_refl sae,
      )
      refl

-- A key that was given is spent.
given-IsSpent :
    (s : PendingStore) (now : ℕ) (k sae : String) (master : Option String) (r : List ℕ × String)
    → (take_for_sae_of_master s now k sae master).1 ≡ ok r
    → IsSpent (take_for_sae_of_master s now k sae master).0 k sae
given-IsSpent s now k sae master r =
    take_cases s now k sae master (λ x. x.1 ≡ ok r → IsSpent x.0 k sae) (λ m x. cc)
      (λ e m old x. cc) (λ e m live why x. cc)
      (λ e t x.
        let marked = record e { retrieved = add sae e.retrieved } in
        let u = record s { inner = put k marked s.inner } in
        let g = marked-IsSpent s k sae e in
        elim (Bool-cases (is_complete marked)) [
          | inl c ↦ rw c (remove_entry-IsSpent u k k sae g)
          | inr c ↦ rw c g
        ])

spent_refused :
    (s : PendingStore) (now : ℕ) (k sae : String) (master : Option String) (r : List ℕ × String)
    → IsSpent s k sae
    → (take_for_sae_of_master s now k sae master).1 ≢ ok r
unfolding is_spent_entry
spent_refused s now k sae master r h x =
    let (e, (i, l, a, m, f), q) = (take_for_sae_of_master_iff s now k sae master r).0.0 x in
    absurd (ground (arith, rw i at h))

-- Once a key was given to an SAE, it is not given to that SAE again: not at any later time, with
-- any master, after any sequence of calls in which no key is inserted under the same id.
pub given_once :
    (s : PendingStore) (now later : ℕ) (k sae : String) (master other : Option String)
    (r r' : List ℕ × String) (ops : List Op)
    → (take_for_sae_of_master s now k sae master).1 ≡ ok r
    → insert_any ops k ≡ false
    → let u = run (take_for_sae_of_master s now k sae master).0 ops in
      (take_for_sae_of_master u later k sae other).1 ≢ ok r'
given_once s now later k sae master other r r' ops x n =
    let u = (take_for_sae_of_master s now k sae master).0 in
    spent_refused (run u ops) later k sae other r'
      (run-IsSpent u ops k sae n (given-IsSpent s now k sae master r x))
