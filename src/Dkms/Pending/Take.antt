-- ===== src/Dkms/Pending/Take.antt =====
-- On `take_for_sae_of_master` of dkms/src/state/pending.rs.
use dkms.Prelude.{
  ℕ, ◌<◌, ◌≤◌, ◌≡◌, ◌↔◌, refl, sym, ◌∙◌, ap, String, Bool, true, false, Option, none, some, List,
  [], ◌∷◌, arith, if◌then◌else◌, ◌⊎◌, inl, inr, Bool-cases, Option-cases,
}
use dkms.Prelude.Outcome.{Outcome, ok, err}
use dkms.Prelude.Assoc.{
  ◌==◌, string_keys, lookup, insert as put, lookup-insert, lookup-remove, some_eq, beq_refl,
}
use dkms.Prelude.Sets.{contains, add, contains-add}
use dkms.Dkms.Pending.{
  PendingEntry, PendingStore, DkmsError, key_expired, key_not_authorized, is_expired, is_complete,
  note_removed, remove_entry, is_other_master, take_for_sae_of_master, remove_entries,
}

-- The entry `e` is held for the key, lives, is for the SAE, has the master that is asked for, and
-- was not given to the SAE before.
abbrev pub IsServable : PendingStore → ℕ → String → String → Option String → PendingEntry → Type 0
IsServable s now k sae master e =
    (lookup k s.inner ≡ some e)
    × (now < e.expires_at)
    × (contains e.authorized sae ≡ true)
    × ((master ≡ none) ⊎ (master ≡ some e.initiator))
    × (contains e.retrieved sae ≡ false)

-- The entry `e` is held for the key, and its time is over.
abbrev pub IsOver : PendingStore → ℕ → String → PendingEntry → Type 0
IsOver s now k e = (lookup k s.inner ≡ some e) × (e.expires_at ≤ now)

is_expired_iff : (e : PendingEntry) (now : ℕ) → (is_expired e now ≡ true) ↔ (e.expires_at ≤ now)
unfolding is_expired
is_expired_iff e now = ground arith

is_expired-false : (e : PendingEntry) (now : ℕ) → (is_expired e now ≡ false) ↔ (now < e.expires_at)
unfolding is_expired
is_expired-false e now = ground arith

is_other_master-false :
    (e : PendingEntry) (master : Option String)
    → (is_other_master e master ≡ false) ↔ ((master ≡ none) ⊎ (master ≡ some e.initiator))
unfolding is_other_master
is_other_master-false e none = (λ h. inl refl, λ h. refl)
is_other_master-false e (some m) = elim (Bool-cases (e.initiator == m)) [
  | inl h ↦ (λ x. inr (sym (ap some ((string_keys.agrees e.initiator m).0 h))), λ x. rw h refl)
  | inr h ↦ (
    λ x. cc,
    λ x. elim x [
      | inl q ↦ cc
      | inr q ↦ absurd (other (ap (λ y. e.initiator == y) (some_eq q) ∙ beq_refl e.initiator) h)
    ],
  )
]
  where
    other : {b : Bool} → b ≡ true → b ≡ false → ⊥
    other t f = cc

-- What an SAE is given of an entry: the key and who asked for it first.
abbrev pub given : PendingEntry → List ℕ × String
given e = (e.material, e.initiator)

module _ (s : PendingStore) (now : ℕ) (k sae : String) (master : Option String) where
  -- The cases of a take, where a statement about its result holds in each.
  pub take_cases :
      (P : PendingStore × Outcome DkmsError (List ℕ × String) → Type 0)
      → (lookup k s.inner ≡ none → P (s, err (key_not_authorized sae)))
      → ((e : PendingEntry)
          → lookup k s.inner ≡ some e
          → is_expired e now ≡ true
          → P ((remove_entry s k).0, err key_expired))
      → ((e : PendingEntry)
          → lookup k s.inner ≡ some e
          → is_expired e now ≡ false
          → (contains e.authorized sae ≡ false)
            ⊎ (is_other_master e master ≡ true)
            ⊎ (contains e.retrieved sae ≡ true)
          → P (s, err (key_not_authorized sae)))
      → ((e : PendingEntry)
          → IsServable s now k sae master e
          → let marked = record e { retrieved = add sae e.retrieved } in
            let u = record s { inner = put k marked s.inner } in
            P (
              if is_complete marked then (remove_entry u k).0 else u,
              ok (e.material, e.initiator),
            ))
      → P (take_for_sae_of_master s now k sae master)
  unfolding take_for_sae_of_master
  take_cases P missing expired refused served = elim (Option-cases (lookup k s.inner)) [
    | inl h ↦ rw (h, take_for_sae_of_master) (missing h)
    | inr (e, h) ↦
        rw (h, take_for_sae_of_master)
          (elim (Bool-cases (is_expired e now)) [
            | inl old ↦ rw old (expired e h old)
            | inr live ↦ rw live (elim (Bool-cases (contains e.authorized sae)) [
              | inr out ↦ rw out (refused e h live (inl out))
              | inl in_ ↦ rw in_ (elim (Bool-cases (is_other_master e master)) [
                | inl other ↦ rw other (refused e h live (inr (inl other)))
                | inr mine ↦ rw mine (elim (Bool-cases (contains e.retrieved sae)) [
                  | inl again ↦ rw again (refused e h live (inr (inr again)))
                  | inr first ↦ rw first (
                      served e (
                        h,
                        (is_expired-false e now).0 live,
                        in_,
                        (is_other_master-false e master).0 mine,
                        first,
                      ))
                ])
              ])
            ])
          ])
  ]

-- A take gives a key exactly where an entry is held that lives, is for the SAE, has the master that
-- is asked for, if any, and was not given to the SAE before, and gives that entry's key and
-- initiator; and it answers that the key has expired exactly where an entry is held whose time is
-- over.
pub take_for_sae_of_master_iff :
    (s : PendingStore) (now : ℕ) (k sae : String) (master : Option String) (r : List ℕ × String)
    → (((take_for_sae_of_master s now k sae master).1 ≡ ok r)
        ↔ ((e : PendingEntry) × IsServable s now k sae master e × (r ≡ given e)))
      × (((take_for_sae_of_master s now k sae master).1 ≡ err key_expired)
          ↔ ((e : PendingEntry) × IsOver s now k e))
take_for_sae_of_master_iff s now k sae master r =
    take_cases s now k sae master
      (λ x.
        ((x.1 ≡ ok r) ↔ ((e : PendingEntry) × IsServable s now k sae master e × (r ≡ given e)))
        × ((x.1 ≡ err key_expired) ↔ ((e : PendingEntry) × IsOver s now k e)))
      (λ h. ((λ x. cc, λ (d, t, q). absurd (missing d h t.0)), (λ x. cc, λ (d, (i, o)). cc)))
      (λ e h old.
        let over = (is_expired_iff e now).0 old in
        (
          (λ x. cc, λ (d, t, q). absurd (late d e h over t.0 t.1)),
          (λ x. (e, (h, over)), λ x. refl),
        ))
      (λ e h live why. (
        (λ x. cc, λ (d, t, q). absurd (refused d e h why t)),
        (λ x. cc, λ (d, (i, o)). absurd (late e d i o h ((is_expired-false e now).0 live))),
      ))
      (λ e t. (
        (λ x. (e, t, cc), λ (d, u, q). ap ok (same e d t u ∙ sym q)),
        (λ x. cc, λ (d, (i, o)). absurd (late e d i o t.0 t.1)),
      ))
  where
    missing : (d : PendingEntry) → lookup k s.inner ≡ none → lookup k s.inner ≡ some d → ⊥
    missing d h i = cc

    same :
        (e d : PendingEntry)
        → IsServable s now k sae master e
        → IsServable s now k sae master d
        → given e ≡ given d
    same e d (h, l, a, m, f) (i, l', a', m', f') = ap given (some_eq (sym h ∙ i))

    late :
        (d e : PendingEntry)
        → lookup k s.inner ≡ some e
        → e.expires_at ≤ now
        → lookup k s.inner ≡ some d
        → now < d.expires_at
        → ⊥
    late d e h t i u = omega (arith, ap (λ (x : PendingEntry). x.expires_at) (some_eq (sym h ∙ i)))

    refused :
        (d e : PendingEntry)
        → lookup k s.inner ≡ some e
        → (contains e.authorized sae ≡ false)
          ⊎ (is_other_master e master ≡ true)
          ⊎ (contains e.retrieved sae ≡ true)
        → IsServable s now k sae master d
        → ⊥
    refused d e h why (i, u, a, m, r) = ground (
      arith,
      ap (λ (x : PendingEntry). contains x.authorized sae) (some_eq (sym h ∙ i)),
      ap (λ (x : PendingEntry). contains x.retrieved sae) (some_eq (sym h ∙ i)),
      ap (λ x. is_other_master x master) (some_eq (sym h ∙ i)),
      (is_other_master-false d master).1 m,
    )

-- The key `k` is not held, or was given to the SAE.
unfoldable pub is_spent_entry : Option PendingEntry → String → Bool
is_spent_entry none sae = true
is_spent_entry (some e) sae = contains e.retrieved sae

abbrev pub IsSpent : PendingStore → String → String → Type 0
IsSpent s k sae = is_spent_entry (lookup k s.inner) sae ≡ true

pub lookup-remove_entry :
    (s : PendingStore) (k j : String)
    → lookup j (remove_entry s k).0.inner ≡ (if k == j then none else lookup j s.inner)
unfolding remove_entry note_removed
lookup-remove_entry s k j = elim (Option-cases (lookup k s.inner)) [
  | inl e ↦
      rw (e, remove_entry)
        (elim (Bool-cases (k == j)) [
          | inl t ↦ rw (t, sym (ap (λ x. lookup x s.inner) ((string_keys.agrees k j).0 t)), e) refl
          | inr f ↦ rw f refl
        ])
  | inr (d, e) ↦ rw (e, remove_entry) (lookup-remove k j s.inner)
]

pub remove_entry-IsSpent :
    (s : PendingStore) (j k sae : String) → IsSpent s k sae → IsSpent (remove_entry s j).0 k sae
unfolding is_spent_entry
remove_entry-IsSpent s j k sae h =
    rw (lookup-remove_entry s j k)
      (elim (Bool-cases (j == k)) [ inl t ↦ rw t refl | inr f ↦ rw f h ])

pub remove_entries-IsSpent :
    (s : PendingStore) (js : List String) (k sae : String)
    → IsSpent s k sae
    → IsSpent (remove_entries s js) k sae
unfolding remove_entries
remove_entries-IsSpent s [] k sae h = h
remove_entries-IsSpent s (j ∷ js) k sae h =
    remove_entries-IsSpent (remove_entry s j).0 js k sae (remove_entry-IsSpent s j k sae h)

-- An entry that is replaced by the same with one more SAE.
marked-IsSpent :
    (s : PendingStore) (j x k sae : String) (e : PendingEntry)
    → lookup j s.inner ≡ some e
    → IsSpent s k sae
    → IsSpent
        (record s { inner = put j (record e { retrieved = add x e.retrieved }) s.inner })
        k
        sae
unfolding is_spent_entry
marked-IsSpent s j x k sae e i h =
    rw (lookup-insert j k (record e { retrieved = add x e.retrieved }) s.inner)
      (elim (Bool-cases (j == k)) [
        | inl t ↦
            rw (t, contains-add e.retrieved x sae)
              (ground (arith, ap (λ y. lookup y s.inner) ((string_keys.agrees j k).0 t)))
        | inr f ↦ rw f h
      ])

pub take-IsSpent :
    (s : PendingStore) (now : ℕ) (j x : String) (master : Option String) (k sae : String)
    → IsSpent s k sae
    → IsSpent (take_for_sae_of_master s now j x master).0 k sae
take-IsSpent s now j x master k sae h =
    take_cases s now j x master (λ r. IsSpent r.0 k sae) (λ m. h)
      (λ e m old. remove_entry-IsSpent s j k sae h) (λ e m live why. h)
      (λ e t.
        let marked = record e { retrieved = add x e.retrieved } in
        let u = record s { inner = put j marked s.inner } in
        let g = marked-IsSpent s j x k sae e t.0 h in
        elim (Bool-cases (is_complete marked)) [
          | inl c ↦ rw c (remove_entry-IsSpent u j k sae g)
          | inr c ↦ rw c g
        ])
