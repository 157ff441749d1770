-- ===== src/Dkms/AckPending/Find.antt =====
-- On `insert` and `take_diagnosed` of dkms/src/control/ack_pending.rs, by what the table holds of a
-- key.
use dkms.Prelude.{
  ◌≡◌, refl, sym, ◌∙◌, ap, String, ◌&&◌, Option, none, some, [], ◌∷◌, if◌then◌else◌, Bool-cases,
  Option-cases, inl, inr,
}
use dkms.Prelude.Assoc.{
  ◌==◌, Assoc, string_keys, lookup, insert as put, remove, lookup-insert, lookup-remove,
}
use dkms.Dkms.AckPending.{
  AckPendingEntry, AckPendingStore, Bucket, or_empty, insert, is_empty, put_bucket, outcome,
  hit_entry, take_diagnosed,
}

abbrev pub find : AckPendingStore → String → String → Option AckPendingEntry
find s peer key_id = lookup key_id (or_empty (lookup peer s.inner))

-- What is found after an insertion: the entry under its peer and key, and the rest as before.
pub find-insert :
    (s : AckPendingStore) (peer k : String) (e : AckPendingEntry) (p j : String)
    → find (insert s peer k e) p j ≡ (if (peer == p) && (k == j) then some e else find s p j)
unfolding insert or_empty
find-insert s peer k e p j =
    rw (lookup-insert peer p (put k e (or_empty (lookup peer s.inner))) s.inner)
      (elim (Bool-cases (peer == p)) [
        | inl t ↦
            rw
              (
                t,
                lookup-insert k j e (or_empty (lookup peer s.inner)),
                (string_keys.agrees peer p).0 t,
              )
              refl
        | inr f ↦ rw f refl
      ])

pub or_empty-put_bucket :
    (inner : Assoc String Bucket) (peer : String) (b : Bucket) (p : String)
    → or_empty (lookup p (put_bucket inner peer b))
      ≡ (if peer == p then b else or_empty (lookup p inner))
unfolding put_bucket or_empty is_empty
or_empty-put_bucket inner peer [] p =
    rw (lookup-remove peer p inner)
      (elim (Bool-cases (peer == p)) [ inl t ↦ rw t refl | inr f ↦ rw f refl ])
or_empty-put_bucket inner peer (x ∷ b) p =
    rw (lookup-insert peer p (x ∷ b) inner)
      (elim (Bool-cases (peer == p)) [ inl t ↦ rw t refl | inr f ↦ rw f refl ])

-- A take removes the entry of its peer and key, and leaves every other one.
pub find-take_diagnosed :
    (s : AckPendingStore) (peer k p j : String)
    → find (take_diagnosed s peer k).0 p j ≡ (if (peer == p) && (k == j) then none else find s p j)
unfolding take_diagnosed or_empty lookup
find-take_diagnosed s peer k p j = elim (Option-cases (lookup peer s.inner)) [
  | inl h ↦
      rw (h, take_diagnosed)
        (elim (Bool-cases (peer == p)) [
          | inr f ↦ rw f refl
          | inl t ↦
              rw (t)
                (missing ((ap (λ x. lookup x s.inner) (sym ((string_keys.agrees peer p).0 t))) ∙ h))
        ])
  | inr (b, h) ↦
      rw (h, take_diagnosed, or_empty-put_bucket s.inner peer (remove k b) p)
        (elim (Bool-cases (peer == p)) [
          | inr f ↦ rw f refl
          | inl t ↦
              rw
                (
                  t,
                  lookup-remove k j b,
                  ap (λ x. lookup x s.inner) (sym ((string_keys.agrees peer p).0 t)),
                  h,
                  or_empty,
                )
                refl
        ])
]
  where
    missing : lookup p s.inner ≡ none → find s p j ≡ (if k == j then none else find s p j)
    missing h = rw h (elim (Bool-cases (k == j)) [ inl t ↦ rw t refl | inr f ↦ rw f refl ])

-- A take hits exactly what is found.
pub hit-find :
    (s : AckPendingStore) (peer k : String) → hit_entry (take_diagnosed s peer k).1 ≡ find s peer k
unfolding take_diagnosed or_empty outcome hit_entry lookup
hit-find s peer k = elim (Option-cases (lookup peer s.inner)) [
  | inl h ↦ rw (h, take_diagnosed) refl
  | inr (b, h) ↦ rw (h, take_diagnosed) (go (lookup k b))
]
  where
    go : (o : Option AckPendingEntry) → hit_entry (outcome o) ≡ o
    go none = refl
    go (some e) = refl
