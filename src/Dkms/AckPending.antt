-- ===== src/Dkms/AckPending.antt =====
-- dkms/src/control/ack_pending.rs: `AckPendingStore`, the keys that were sent and wait for their
-- ACK. A call holds the lock of the table, so each call is one step; the clock is an argument.
pub mod Find
pub mod Reap
use dkms.Prelude.{
  ℕ, ◌+◌, ◌-◌, String, Bool, true, false, Option, none, some, List, [], ◌∷◌, map, length, leb, ltb,
  if◌then◌else◌,
}
use dkms.Prelude.Assoc.{Assoc, string_keys, lookup, insert as put, remove}
use dkms.Dkms.Security.{KeyGrade}

pub record AckPendingEntry : Type 0 where
  pub bytes : List ℕ
  pub deadline : ℕ
  pub grade : KeyGrade

unfoldable pub is_expired : AckPendingEntry → ℕ → Bool
is_expired e now = leb e.deadline now

-- The entries of a peer, by key.
abbrev pub Bucket : Type 0
Bucket = Assoc String AckPendingEntry

pub record AckPendingStore : Type 0 where
  pub inner : Assoc String Bucket

pub data TakeOutcome : Type 0 where
  hit : AckPendingEntry → TakeOutcome
  unknown_peer unknown_key : TakeOutcome

unfoldable pub new : AckPendingStore
new = record { inner = [] }

-- `or_default()`
unfoldable pub or_empty : Option Bucket → Bucket
or_empty none = []
or_empty (some bucket) = bucket

unfoldable pub insert : AckPendingStore → String → String → AckPendingEntry → AckPendingStore
insert s peer key_id entry = record s {
  inner = put peer (put key_id entry (or_empty (lookup peer s.inner))) s.inner;
}

unfoldable pub is_empty : Bucket → Bool
is_empty [] = true
is_empty (e ∷ bucket) = false

-- The bucket of a peer after a removal: an empty one goes.
unfoldable pub put_bucket : Assoc String Bucket → String → Bucket → Assoc String Bucket
put_bucket inner peer bucket = if is_empty bucket then remove peer inner else put peer bucket inner

unfoldable pub outcome : Option AckPendingEntry → TakeOutcome
outcome none = unknown_key
outcome (some e) = hit e

unfoldable pub take_diagnosed : AckPendingStore → String → String → AckPendingStore × TakeOutcome
take_diagnosed s peer key_id = elim (lookup peer s.inner) [
  | none ↦ (s, unknown_peer)
  | some bucket ↦ (
    record s { inner = put_bucket s.inner peer (remove key_id bucket) },
    outcome (lookup key_id bucket),
  )
]

unfoldable pub hit_entry : TakeOutcome → Option AckPendingEntry
hit_entry (hit e) = some e
hit_entry unknown_peer = none
hit_entry unknown_key = none

unfoldable pub take : AckPendingStore → String → String → AckPendingStore × Option AckPendingEntry
take s peer key_id = let (s', r) = take_diagnosed s peer key_id in (s', hit_entry r)

unfoldable pub peers : AckPendingStore → List String
peers s = map (λ (e : String × Bucket). e.0) s.inner

unfoldable pub pending_count : AckPendingStore → String → ℕ
pending_count s peer = length (or_empty (lookup peer s.inner))

unfoldable pub drop_peer : AckPendingStore → String → AckPendingStore × ℕ
drop_peer s peer = (record s { inner = remove peer s.inner }, pending_count s peer)

unfoldable pub snapshot : AckPendingStore → List (String × ℕ)
snapshot s = map (λ (e : String × Bucket). (e.0, length e.1)) s.inner

-- `bucket.retain(|_kid, entry| !entry.is_expired(now))`
unfoldable pub retain_live : Bucket → ℕ → Bucket
retain_live [] now = []
retain_live ((k, e) ∷ bucket) now =
    let rest = retain_live bucket now in if is_expired e now then rest else (k, e) ∷ rest

-- `guard.retain(…)`, and what it pushes on `removed`
unfoldable pub reap : Assoc String Bucket → ℕ → Assoc String Bucket × List (String × ℕ)
reap [] now = ([], [])
reap ((peer, bucket) ∷ inner) now =
    let live = retain_live bucket now in
    let n = length bucket - length live in
    let (rest, removed) = reap inner now in
    (
      if is_empty live then rest else (peer, live) ∷ rest,
      if ltb 0 n then (peer, n) ∷ removed else removed,
    )

unfoldable pub reap_expired_by_peer : AckPendingStore → ℕ → AckPendingStore × List (String × ℕ)
reap_expired_by_peer s now =
    let (inner, removed) = reap s.inner now in (record s { inner = inner }, removed)

unfoldable pub sum : List (String × ℕ) → ℕ
sum [] = 0
sum ((p, n) ∷ removed) = n + sum removed

unfoldable pub reap_expired : AckPendingStore → ℕ → AckPendingStore × ℕ
reap_expired s now = let (s', removed) = reap_expired_by_peer s now in (s', sum removed)
