-- ===== src/Dkms/Tests/Stores.antt =====
-- The stores of pending keys, and those of keys that wait for their ACK.
use dkms.Prelude.{◌≡◌, ◌≢◌, ◌↔◌, refl, false, none, some, List, [], ◌∷◌}
use dkms.Prelude.Outcome.{ok, err}
use dkms.Prelude.Assoc.{string_keys, lookup}
use dkms.Prelude.Sets.{contains}
use dkms.Dkms.Pending.{
  key_expired, PendingStore, PendingEntry, new, take_for_sae_of_master, is_expired, is_complete,
  is_other_master,
}
use dkms.Dkms.Pending.Invariant.{IsValid}
use dkms.Dkms.Pending.Steps.{Op, peer_insert, take, sweep, run, run-IsValid, new-IsValid}
use dkms.Dkms.Pending.Take.{IsServable, IsOver, given, take_for_sae_of_master_iff}
use dkms.Dkms.Pending.Once.{inserts, insert_any, given_once}

abbrev entry : PendingEntry
entry = record {
  initiator = "sae_1";
  authorized = "sae_2" ∷ "sae_3" ∷ [];
  retrieved = [];
  material = 11 ∷ 12 ∷ [];
  expires_at = 100;
  origin = some "dkms-2";
}

abbrev store : PendingStore
store = record { inner = ("k1", entry) ∷ []; default_ttl = 300; per_origin = ("dkms-2", 1) ∷ [] }

abbrev ops : List Op
ops =
    take 20 "k1" "sae_3" none
    ∷ sweep 30
    ∷ peer_insert 40 "k2" "dkms-2" "sae_1" ("sae_2" ∷ []) (1 ∷ []) none
    ∷ []

first_given : (take_for_sae_of_master store 10 "k1" "sae_2" none).1 ≡ ok (11 ∷ 12 ∷ [], "sae_1")
unfolding take_for_sae_of_master is_expired is_complete is_other_master lookup contains
first_given = refl

not_inserted : insert_any ops "k1" ≡ false
unfolding insert_any inserts
not_inserted = refl

given_once_example :
    (take_for_sae_of_master
      (run (take_for_sae_of_master store 10 "k1" "sae_2" none).0 ops)
      50
      "k1"
      "sae_2"
      (some "sae_1")).1
    ≢ ok (11 ∷ 12 ∷ [], "sae_1")
given_once_example =
    given_once store 10 50 "k1" "sae_2" none (some "sae_1") (11 ∷ 12 ∷ [], "sae_1")
      (11 ∷ 12 ∷ [], "sae_1") ops first_given not_inserted

run-IsValid_example : IsValid (run (new 300) ops)
run-IsValid_example = run-IsValid (new 300) ops (new-IsValid 300)

take_for_sae_of_master_iff_example :
    (((take_for_sae_of_master store 10 "k1" "sae_2" (some "sae_1")).1 ≡ ok (11 ∷ 12 ∷ [], "sae_1"))
      ↔ ((e : PendingEntry) × IsServable store 10 "k1" "sae_2" (some "sae_1") e
          × ((11 ∷ 12 ∷ [], "sae_1") ≡ given e)))
    × (((take_for_sae_of_master store 10 "k1" "sae_2" (some "sae_1")).1 ≡ err key_expired)
        ↔ ((e : PendingEntry) × IsOver store 10 "k1" e))
take_for_sae_of_master_iff_example =
    take_for_sae_of_master_iff store 10 "k1" "sae_2" (some "sae_1") (11 ∷ 12 ∷ [], "sae_1")
