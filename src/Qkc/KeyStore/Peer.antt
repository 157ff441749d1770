-- ===== src/Qkc/KeyStore/Peer.antt =====
-- On `lookup_dec` of qkc/src/keystore.rs after the answer of a `dec_keys`.
use dkms.Prelude.{
  ℕ, ◌≡◌, refl, sym, ◌∙◌, ap, Bool, true, false, Option, none, some, List, [], ◌∷◌, if◌then◌else◌,
  Bool-cases, Option-cases, inl, inr,
}
use dkms.Prelude.Assoc.{
  ◌==◌, Assoc, nat_keys, lookup, insert, lookup-insert, lookup-remove, beq_refl,
}
use dkms.Qkc.KeyStore.{OtpKey, KeyStore, lookup_dec, insert_all, dec_answered}

-- The material that the last key of the id in the list has.
pub last_of : ℕ → List OtpKey → Option (List ℕ)
last_of id [] = none
last_of id (k ∷ ks) = elim (last_of id ks) [
  | some v ↦ some v
  | none ↦ if k.key_id == id then some k.material else none
]

pub or_else : Option (List ℕ) → Option (List ℕ) → Option (List ℕ)
or_else (some v) o = some v
or_else none o = o

lookup-insert_all :
    (ks : List OtpKey) (dec : Assoc ℕ (List ℕ)) (id : ℕ)
    → lookup id (insert_all ks dec) ≡ or_else (last_of id ks) (lookup id dec)
unfolding insert_all last_of or_else
lookup-insert_all [] dec id = refl
lookup-insert_all (k ∷ ks) dec id =
    lookup-insert_all ks (insert k.key_id k.material dec) id
    ∙ rw (lookup-insert k.key_id id k.material dec) (go (last_of id ks) (k.key_id == id))
  where
    go :
        (o : Option (List ℕ)) (b : Bool)
        → or_else o (if b then some k.material else lookup id dec)
          ≡ or_else
              (elim o [ some v ↦ some v | none ↦ if b then some k.material else none ])
              (lookup id dec)
    go none true = refl
    go none false = refl
    go (some v) b = refl

lookup_dec_lem :
    (s : KeyStore) (id : ℕ)
    → ((lookup_dec s id).1 ≡ lookup id s.dec)
      × ((j : ℕ) → lookup j (lookup_dec s id).0.dec ≡ (if id == j then none else lookup j s.dec))
unfolding lookup_dec
lookup_dec_lem s id = elim (Option-cases (lookup id s.dec)) [
  | inl e ↦ (rw (e, lookup_dec) refl, λ j. rw (e, lookup_dec) (missing j e))
  | inr (v, e) ↦ (rw (e, lookup_dec) refl, λ j. rw (e, lookup_dec) (lookup-remove id j s.dec))
]
  where
    missing :
        (j : ℕ)
        → lookup id s.dec ≡ none
        → lookup j s.dec ≡ (if id == j then none else lookup j s.dec)
    missing j e = elim (Bool-cases (id == j)) [
      | inl t ↦ rw (t, sym (ap (λ i. lookup i s.dec) ((nat_keys.agrees id j).0 t)), e) refl
      | inr f ↦ rw f refl
    ]

-- After the keys of a `dec_keys` have come, a look-up gives the material that the last key of the
-- id among them has, or what was held before, and the same look-up again gives nothing.
pub lookup_dec-dec_answered :
    (s : KeyStore) (ids : List ℕ) (keys : List OtpKey) (id : ℕ)
    → let u = dec_answered s ids (some keys) in
      ((lookup_dec u id).1 ≡ or_else (last_of id keys) (lookup id s.dec))
      × ((lookup_dec (lookup_dec u id).0 id).1 ≡ none)
unfolding dec_answered
lookup_dec-dec_answered s ids keys id =
    let u = dec_answered s ids (some keys) in
    let once = lookup_dec_lem u id in
    let twice = lookup_dec_lem (lookup_dec u id).0 id in
    (once.0 ∙ lookup-insert_all keys s.dec id, twice.0 ∙ (once.1 id ∙ rw (beq_refl id) refl))
