-- ===== src/Dkms/Pending.antt =====
-- dkms/src/state/pending.rs: `PendingStore`, the session keys that wait for their SAEs. Instants
-- and durations are nanoseconds without a bound, so `checked_add` gives a sum. A method that drops
-- its guard before the end (`take_for_sae_of_master`, `sweep_expired`) is one step here.
pub mod Invariant
pub mod Steps
pub mod Take
pub mod Once
use dkms.Prelude.{
  ℕ, ◌+◌, ◌-◌, ◌*◌, min, String, Bool, true, false, not, Option, none, some, List, [], ◌∷◌, length,
  leb, if◌then◌else◌,
}
use dkms.Prelude.Outcome.{Outcome, ok, err}
use dkms.Prelude.Assoc.{◌==◌, Assoc, string_keys, lookup, insert as put, remove, or_insert}
use dkms.Prelude.Sets.{contains, add, is_superset}

-- 7 days
abbrev pub max_ttl : ℕ
max_ttl = 7 * 24 * 3600 * 1_000_000_000

abbrev pub max_pending_per_origin : ℕ
max_pending_per_origin = 131_072

pub data PendingInsertError : Type 0 where
  occupied origin_full : PendingInsertError

-- The variants of `DkmsError` that the store returns.
pub data DkmsError : Type 0 where
  key_not_authorized : String → DkmsError
  key_expired : DkmsError

pub record PendingEntry : Type 0 where
  pub initiator : String
  pub authorized : List String
  pub retrieved : List String
  pub material : List ℕ
  pub expires_at : ℕ
  pub origin : Option String

unfoldable pub is_expired : PendingEntry → ℕ → Bool
is_expired e now = leb e.expires_at now

unfoldable pub is_complete : PendingEntry → Bool
is_complete e = is_superset e.retrieved e.authorized

pub record PendingStore : Type 0 where
  pub inner : Assoc String PendingEntry
  pub default_ttl : ℕ
  pub per_origin : Assoc String ℕ

unfoldable pub new : ℕ → PendingStore
new default_ttl_secs = record {
  inner = [];
  default_ttl = default_ttl_secs * 1_000_000_000;
  per_origin = [];
}

-- `*c = c.saturating_sub(1)`, where the origin is known
unfoldable pub decrement : Assoc String ℕ → Option String → Assoc String ℕ
decrement counts none = counts
decrement counts (some o) = elim (lookup o counts) [ none ↦ counts | some c ↦ put o (c - 1) counts ]

unfoldable pub note_removed : PendingStore → PendingEntry → PendingStore
note_removed s entry = record s { per_origin = decrement s.per_origin entry.origin }

unfoldable pub remove_entry : PendingStore → String → PendingStore × Bool
remove_entry s key_id = elim (lookup key_id s.inner) [
  | none ↦ (s, false)
  | some e ↦ (note_removed (record s { inner = remove key_id s.inner }) e, true)
]

unfoldable pub or_zero : Option ℕ → ℕ
or_zero none = 0
or_zero (some c) = c

unfoldable pub pending_from : PendingStore → String → ℕ
pending_from s origin = or_zero (lookup origin s.per_origin)

-- `ttl.unwrap_or(self.default_ttl).min(MAX_TTL)`, counted from `now`
unfoldable pub expiry : PendingStore → ℕ → Option ℕ → ℕ
expiry s now none = now + min s.default_ttl max_ttl
expiry s now (some ttl) = now + min ttl max_ttl

unfoldable pub insert_from_peer :
    PendingStore
    → (now : ℕ) (key_id origin initiator : String) (authorized : List String) (material : List ℕ)
    → Option ℕ
    → PendingStore × Outcome PendingInsertError (Unit {0})
insert_from_peer s now key_id origin initiator authorized material ttl =
    let counts = or_insert origin 0 s.per_origin in
    let count = or_zero (lookup origin counts) in
    if leb max_pending_per_origin count
    then (record s { per_origin = counts }, err origin_full)
    else elim (lookup key_id s.inner) [
      | some old ↦ (record s { per_origin = counts }, err occupied)
      | none ↦ (
        record s {
          inner =
              put key_id
                (record {
                  initiator = initiator;
                  authorized = authorized;
                  retrieved = [];
                  material = material;
                  expires_at = expiry s now ttl;
                  origin = some origin;
                })
                s.inner;
          per_origin = put origin (count + 1) counts;
        },
        ok tt,
      )
    ]

unfoldable pub insert :
    PendingStore
    → (now : ℕ) (key_id initiator : String) (authorized : List String) (material : List ℕ)
    → Option ℕ
    → PendingStore
insert s now key_id initiator authorized material ttl =
    let v = record s {
      inner =
          put key_id
            (record {
              initiator = initiator;
              authorized = authorized;
              retrieved = [];
              material = material;
              expires_at = expiry s now ttl;
              origin = none;
            })
            s.inner;
    } in
    elim (lookup key_id s.inner) [ none ↦ v | some old ↦ note_removed v old ]

-- `if let Some(m) = master { if guard.initiator != *m`
unfoldable pub is_other_master : PendingEntry → Option String → Bool
is_other_master e none = false
is_other_master e (some m) = not (e.initiator == m)

unfoldable pub take_for_sae_of_master :
    PendingStore
    → (now : ℕ) (key_id sae : String) → Option String
    → PendingStore × Outcome DkmsError (List ℕ × String)
take_for_sae_of_master s now key_id sae master = elim (lookup key_id s.inner) [
  | none ↦ (s, err (key_not_authorized sae))
  | some e ↦
      if is_expired e now
      then ((remove_entry s key_id).0, err key_expired)
      else if not (contains e.authorized sae)
      then (s, err (key_not_authorized sae))
      else if is_other_master e master
      then (s, err (key_not_authorized sae))
      else if contains e.retrieved sae
      then (s, err (key_not_authorized sae))
      else let marked = record e { retrieved = add sae e.retrieved } in
        let v = record s { inner = put key_id marked s.inner } in
        (if is_complete marked then (remove_entry v key_id).0 else v, ok (e.material, e.initiator))
]

unfoldable pub take_for_sae :
    PendingStore
    → (now : ℕ) (key_id sae : String) → PendingStore × Outcome DkmsError (List ℕ × String)
take_for_sae s now key_id sae = take_for_sae_of_master s now key_id sae none

-- `filter_map`, with the keys of the expired entries
unfoldable pub stale_keys : Assoc String PendingEntry → ℕ → List String
stale_keys [] now = []
stale_keys ((k, e) ∷ m) now =
    let rest = stale_keys m now in if is_expired e now then k ∷ rest else rest

unfoldable pub remove_entries : PendingStore → List String → PendingStore
remove_entries s [] = s
remove_entries s (k ∷ ks) = remove_entries (remove_entry s k).0 ks

unfoldable pub sweep_expired : PendingStore → ℕ → PendingStore × ℕ
sweep_expired s now = let stale = stale_keys s.inner now in (remove_entries s stale, length stale)

unfoldable pub clear : PendingStore → PendingStore
clear s = record s { inner = []; per_origin = [] }

unfoldable pub force_remove : PendingStore → String → PendingStore × Bool
force_remove s key_id = remove_entry s key_id
