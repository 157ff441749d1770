-- ===== src/Dkms/Buffer/TakeById.antt =====
-- On `take_by_id` of dkms/src/state/buffer.rs.
use dkms.Prelude.{
  ◌≡◌, refl, ap, String, Bool, true, false, none, some, List, [], ◌∷◌, ◌++◌, if◌then◌else◌,
  Bool-cases, inl, inr, ◌⊎◌,
}
use dkms.Prelude.Assoc.{◌==◌, string_keys}
use dkms.Dkms.Buffer.{TransportKey, SecureKeyBuffer, take_by_id, remove_id}

-- No key of the list has the id.
unfoldable pub lacks : List TransportKey → String → Bool
lacks [] id = true
lacks (k ∷ ks) id = if k.id == id then false else lacks ks id

-- A key was found: the first of its id, and the others are left in their order.
pub record IsFound (q : List TransportKey) (id : String) (q' : List TransportKey) (k : TransportKey)
    : Type 0 where
  pub before : List TransportKey
  pub after : List TransportKey
  pub whole : q ≡ before ++ k ∷ after
  pub left : q' ≡ before ++ after
  pub first : lacks before id ≡ true
  pub named : k.id ≡ id

remove_id-cases :
    (q : List TransportKey) (id : String)
    → ((lacks q id ≡ true) × (remove_id q id ≡ (q, none)))
      ⊎ ((q' : List TransportKey) × (k : TransportKey) × (remove_id q id ≡ (q', some k))
          × IsFound q id q' k)
unfolding lacks remove_id
remove_id-cases [] id = inl (refl, refl)
remove_id-cases (k ∷ ks) id = elim (Bool-cases (k.id == id)) [
  | inl t ↦ inr (
    ks,
    k,
    rw t refl,
    record {
      before = [];
      after = ks;
      whole = refl;
      left = refl;
      first = refl;
      named = (string_keys.agrees k.id id).0 t;
    },
  )
  | inr f ↦ elim (remove_id-cases ks id) [
    | inl (l, e) ↦ inl (rw (f) l, rw (f, e) refl)
    | inr (q', j, e, found) ↦ inr (
      k ∷ q',
      j,
      rw (f, e) refl,
      record {
        before = k ∷ found.before;
        after = found.after;
        whole = ap (λ r. k ∷ r) found.whole;
        left = ap (λ r. k ∷ r) found.left;
        first = rw f found.first;
        named = found.named;
      },
    )
  ]
]

-- `take_by_id` takes the first key of the id out of its place, leaves the others in their order,
-- and returns nothing and changes nothing where no key has the id.
pub take_by_id_lem :
    (b : SecureKeyBuffer) (id : String)
    → ((lacks b.inner id ≡ true) × (take_by_id b id ≡ (b, none)))
      ⊎ ((q : List TransportKey) × (k : TransportKey) × (take_by_id b id
            ≡ (record b { inner = q }, some k))
          × IsFound b.inner id q k)
unfolding take_by_id
take_by_id_lem b id = elim (remove_id-cases b.inner id) [
  | inl (l, e) ↦ inl (l, rw e refl)
  | inr (q, k, e, found) ↦ inr (q, k, rw e refl, found)
]
