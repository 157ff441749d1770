-- ===== src/Dkms/AckPending/Reap.antt =====
-- On `reap_expired` of dkms/src/control/ack_pending.rs.
use dkms.Prelude.{
  ℕ, ◌+◌, ◌-◌, ◌≤◌, ◌≡◌, refl, subst, String, true, Option, none, some, List, [], ◌∷◌, arith,
  length, ltb, if◌then◌else◌, Bool-cases, inl, inr,
}
use dkms.Prelude.Assoc.{◌==◌, Assoc, string_keys, lookup, IsUnique, total}
use dkms.Dkms.AckPending.{
  AckPendingEntry, AckPendingStore, Bucket, is_expired, or_empty, is_empty, retain_live, reap,
  reap_expired_by_peer, reap_expired, sum,
}
use dkms.Dkms.AckPending.Find.{find}

-- The entry, where it has not expired.
unfoldable pub live : Option AckPendingEntry → ℕ → Option AckPendingEntry
live none now = none
live (some e) now = if is_expired e now then none else some e

-- How many entries the table holds.
pub pending : AckPendingStore → ℕ
pending s = total length s.inner

-- No peer and no key of a peer is held twice.
pub record IsValid (s : AckPendingStore) : Type 0 where
  pub unique : IsUnique s.inner
  pub buckets : (p : String) → IsUnique (or_empty (lookup p s.inner))

lookup-retain_live :
    (b : Bucket) (now : ℕ) (k : String)
    → IsUnique b
    → lookup k (retain_live b now) ≡ live (lookup k b) now
unfolding retain_live live lookup IsUnique
lookup-retain_live [] now k u = refl
lookup-retain_live ((j, e) ∷ b) now k u = elim (Bool-cases (j == k)) [
  | inl t ↦
      let absent = subst (λ i. lookup i b ≡ none) ((string_keys.agrees j k).0 t) u.0 in
      elim (Bool-cases (is_expired e now)) [
        | inl x ↦ rw (x, t, lookup-retain_live b now k u.1, absent, live, x) refl
        | inr y ↦ rw (y, t, live, y) refl
      ]
  | inr f ↦ elim (Bool-cases (is_expired e now)) [
    | inl x ↦ rw (x, f) (lookup-retain_live b now k u.1)
    | inr y ↦ rw (y, f) (lookup-retain_live b now k u.1)
  ]
]

lookup-reap-none :
    (inner : Assoc String Bucket) (now : ℕ) (p : String)
    → lookup p inner ≡ none
    → lookup p (reap inner now).0 ≡ none
unfolding reap lookup
lookup-reap-none [] now p h = refl
lookup-reap-none ((q, b) ∷ inner) now p h = elim (Bool-cases (q == p)) [
  | inl t ↦ absurd (clash b (rw t at h))
  | inr f ↦ elim (Bool-cases (is_empty (retain_live b now))) [
    | inl x ↦ rw x (lookup-reap-none inner now p (rw f at h))
    | inr y ↦ rw (y, f) (lookup-reap-none inner now p (rw f at h))
  ]
]
  where
    clash : (b : Bucket) → some b ≡ none → ⊥
    clash b x = cc

is_empty_lem : (b : Bucket) → is_empty b ≡ true → [] ≡ b
unfolding is_empty
is_empty_lem [] x = refl
is_empty_lem (e ∷ b) x = cc

or_empty-reap :
    (inner : Assoc String Bucket) (now : ℕ) (p : String)
    → IsUnique inner
    → or_empty (lookup p (reap inner now).0) ≡ retain_live (or_empty (lookup p inner)) now
unfolding reap lookup or_empty IsUnique retain_live
or_empty-reap [] now p u = refl
or_empty-reap ((q, b) ∷ inner) now p u = elim (Bool-cases (q == p)) [
  | inl t ↦
      let absent = subst (λ i. lookup i inner ≡ none) ((string_keys.agrees q p).0 t) u.0 in
      elim (Bool-cases (is_empty (retain_live b now))) [
        | inl x ↦
            rw (x, t, lookup-reap-none inner now p absent) (is_empty_lem (retain_live b now) x)
        | inr y ↦ rw (y, t) refl
      ]
  | inr f ↦ elim (Bool-cases (is_empty (retain_live b now))) [
    | inl x ↦ rw (x, f) (or_empty-reap inner now p u.1)
    | inr y ↦ rw (y, f) (or_empty-reap inner now p u.1)
  ]
]

-- After a reap of a table that holds no peer and no key of a peer twice, what is found is what was
-- found, where that has not expired.
pub find-reap_expired :
    (s : AckPendingStore) (now : ℕ) (p k : String)
    → IsValid s
    → find (reap_expired s now).0 p k ≡ live (find s p k) now
unfolding reap_expired reap_expired_by_peer
find-reap_expired s now p k v =
    rw (or_empty-reap s.inner now p v.unique)
      (lookup-retain_live (or_empty (lookup p s.inner)) now k (v.buckets p))

length-retain_live : (b : Bucket) (now : ℕ) → length (retain_live b now) ≤ length b
unfolding retain_live
length-retain_live [] now = omega arith
length-retain_live ((k, e) ∷ b) now = ground (arith, length-retain_live b now)

-- What is pushed on the report, and what is kept.
reported :
    (q : String) (n : ℕ) (r : List (String × ℕ))
    → sum (if ltb 0 n then (q, n) ∷ r else r) ≡ n + sum r
unfolding sum
reported q n r = ground arith

kept :
    (q : String) (l : Bucket) (r : Assoc String Bucket)
    → total length (if is_empty l then r else (q, l) ∷ r) ≡ length l + total length r
unfolding total is_empty
kept q [] r = omega arith
kept q (e ∷ l) r = refl

total-reap :
    (inner : Assoc String Bucket) (now : ℕ)
    → sum (reap inner now).1 + total length (reap inner now).0 ≡ total length inner
unfolding reap total sum
total-reap [] now = refl
total-reap ((q, b) ∷ inner) now =
    let l = retain_live b now in
    let (rest, removed) = reap inner now in
    omega (
      arith,
      reported q (length b - length l) removed,
      kept q l rest,
      length-retain_live b now,
      total-reap inner now,
    )

-- The number that a reap reports is the number of entries that it removes.
pub pending-reap_expired :
    (s : AckPendingStore) (now : ℕ)
    → (reap_expired s now).1 + pending (reap_expired s now).0 ≡ pending s
unfolding reap_expired reap_expired_by_peer pending
pending-reap_expired s now = total-reap s.inner now
