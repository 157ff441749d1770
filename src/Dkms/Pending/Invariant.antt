-- ===== src/Dkms/Pending/Invariant.antt =====
-- The invariant of `PendingStore` of dkms/src/state/pending.rs, for changes of one entry.
use dkms.Prelude.{
  ℕ, ◌+◌, ◌-◌, ◌≤◌, ◌<◌, ◌≡◌, refl, sym, ◌∙◌, ap, String, true, Option, none, some, arith,
  if◌then◌else◌, inl, inr, Option-cases,
}
use dkms.Prelude.Assoc.{
  ◌==◌, Assoc, string_keys, lookup, insert as put, remove, or_insert, IsUnique, total,
  lookup-insert, total-remove, total-insert_new, total-insert, remove-IsUnique, insert-IsUnique,
}
use dkms.Dkms.Pending.{
  max_pending_per_origin, PendingEntry, PendingStore, decrement, note_removed, remove_entry,
  or_zero, pending_from,
}

abbrev pub is_from : String → Option String → ℕ
is_from o none = 0
is_from o (some p) = if p == o then 1 else 0

-- How many of the entries come from the origin `o`.
abbrev pub held_from : String → Assoc String PendingEntry → ℕ
held_from o m = total (λ (e : PendingEntry). is_from o e.origin) m

-- No key is held twice, and the counter of each origin is the number of its entries, which is
-- within the bound.
pub record IsValid (s : PendingStore) : Type 0 where
  pub unique : IsUnique s.inner
  pub counted : (o : String) → pending_from s o ≡ held_from o s.inner
  pub bounded : (o : String) → pending_from s o ≤ max_pending_per_origin

same :
    (counts : Assoc String ℕ) (p o : String) → (p == o) ≡ true → lookup o counts ≡ lookup p counts
same counts p o h = sym (ap (λ x. lookup x counts) ((string_keys.agrees p o).0 h))

or_zero-decrement :
    (counts : Assoc String ℕ) (origin : Option String) (o : String)
    → or_zero (lookup o (decrement counts origin)) ≡ or_zero (lookup o counts) - is_from o origin
unfolding decrement or_zero
or_zero-decrement counts none o = omega arith
or_zero-decrement counts (some p) o = elim (Option-cases (lookup p counts)) [
  | inl e ↦ ground (arith, same counts p o)
  | inr (c, e) ↦ ground (arith, lookup-insert p o (c - 1) counts, same counts p o)
]

pub or_zero-or_insert :
    (counts : Assoc String ℕ) (p o : String)
    → or_zero (lookup o (or_insert p 0 counts)) ≡ or_zero (lookup o counts)
unfolding or_insert or_zero
or_zero-or_insert counts p o = elim (Option-cases (lookup p counts)) [
  | inl e ↦ ground (arith, lookup-insert p o 0 counts, same counts p o)
  | inr (c, e) ↦ rw (e, or_insert) refl
]

-- The store without the entry `e` of the key `k`.
pub removed-IsValid :
    (s : PendingStore) (k : String) (e : PendingEntry)
    → IsValid s
    → lookup k s.inner ≡ some e
    → IsValid (note_removed (record s { inner = remove k s.inner }) e)
unfolding note_removed pending_from
removed-IsValid s k e v h = record {
  unique = remove-IsUnique k s.inner v.unique;
  counted = λ o. omega (
    arith,
    or_zero-decrement s.per_origin e.origin o,
    total-remove (λ (d : PendingEntry). is_from o d.origin) k e s.inner v.unique h,
    v.counted o,
  );
  bounded = λ o. omega (arith, or_zero-decrement s.per_origin e.origin o, v.bounded o);
}

pub remove_entry-IsValid :
    (s : PendingStore) (k : String) → IsValid s → IsValid (remove_entry s k).0
unfolding remove_entry
remove_entry-IsValid s k v = elim (Option-cases (lookup k s.inner)) [
  | inl e ↦ rw (e, remove_entry) v
  | inr (d, e) ↦ rw (e, remove_entry) (removed-IsValid s k d v e)
]

-- The entry `e` of the key `k` replaced by one from the same origin.
pub replaced-IsValid :
    (s : PendingStore) (k : String) (e d : PendingEntry)
    → IsValid s
    → lookup k s.inner ≡ some e
    → d.origin ≡ e.origin
    → IsValid (record s { inner = put k d s.inner })
unfolding pending_from
replaced-IsValid s k e d v h q = record {
  unique = insert-IsUnique k d s.inner v.unique;
  counted = λ o. omega (
    arith,
    total-insert (λ (x : PendingEntry). is_from o x.origin) k e d s.inner v.unique h,
    v.counted o,
    ap (is_from o) q,
  );
  bounded = v.bounded;
}

-- The counters of `counts`, which reads like the counters of the store.
pub recounted-IsValid :
    (s : PendingStore) (p : String)
    → IsValid s
    → IsValid (record s { per_origin = or_insert p 0 s.per_origin })
unfolding pending_from
recounted-IsValid s p v = record {
  unique = v.unique;
  counted = λ o. or_zero-or_insert s.per_origin p o ∙ v.counted o;
  bounded = λ o. omega (arith, or_zero-or_insert s.per_origin p o, v.bounded o);
}

-- A new entry of the origin `p`, counted.
pub added-IsValid :
    (s : PendingStore) (k p : String) (d : PendingEntry)
    → IsValid s
    → lookup k s.inner ≡ none
    → d.origin ≡ some p
    → pending_from s p < max_pending_per_origin
    → IsValid (record s {
      inner = put k d s.inner;
      per_origin = put p (pending_from s p + 1) s.per_origin;
    })
unfolding pending_from or_zero
added-IsValid s k p d v h q l = record {
  unique = insert-IsUnique k d s.inner v.unique;
  counted = λ o. ground (
    arith,
    lookup-insert p o (pending_from s p + 1) s.per_origin,
    total-insert_new (λ (x : PendingEntry). is_from o x.origin) k d s.inner h,
    v.counted o,
    ap (is_from o) q,
    same s.per_origin p o,
  );
  bounded = λ o. ground (arith, lookup-insert p o (pending_from s p + 1) s.per_origin, v.bounded o);
}

-- A new entry of this node's own.
pub own-IsValid :
    (s : PendingStore) (k : String) (d : PendingEntry)
    → IsValid s
    → lookup k s.inner ≡ none
    → d.origin ≡ none
    → IsValid (record s { inner = put k d s.inner })
unfolding pending_from
own-IsValid s k d v h q = record {
  unique = insert-IsUnique k d s.inner v.unique;
  counted = λ o. omega (
    arith,
    total-insert_new (λ (x : PendingEntry). is_from o x.origin) k d s.inner h,
    v.counted o,
    ap (is_from o) q,
  );
  bounded = v.bounded;
}

-- An entry of this node's own in place of the entry `e`, which is taken out of the counters.
pub overwritten-IsValid :
    (s : PendingStore) (k : String) (e d : PendingEntry)
    → IsValid s
    → lookup k s.inner ≡ some e
    → d.origin ≡ none
    → IsValid (note_removed (record s { inner = put k d s.inner }) e)
unfolding note_removed pending_from
overwritten-IsValid s k e d v h q = record {
  unique = insert-IsUnique k d s.inner v.unique;
  counted = λ o. omega (
    arith,
    or_zero-decrement s.per_origin e.origin o,
    total-insert (λ (x : PendingEntry). is_from o x.origin) k e d s.inner v.unique h,
    v.counted o,
    ap (is_from o) q,
  );
  bounded = λ o. omega (arith, or_zero-decrement s.per_origin e.origin o, v.bounded o);
}
