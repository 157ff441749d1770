-- ===== src/Orr/Peers/Flags.antt =====
-- orr/src/peers.rs: the flags of `PeerRegistry` that keep two establishments with a peer apart, and
-- the time of the last failure. The clock is an argument.
use dkms.Prelude.{ℕ, ◌-◌, Bool, true, false, not, String, Option, none, some, leb, if◌then◌else◌}
use dkms.Prelude.Assoc.{string_keys, lookup, insert, remove}
use dkms.Prelude.Sets.{contains, add}
use dkms.Orr.Peers.{PeerRegistry}

unfoldable pub try_mark_rotation_spawned : PeerRegistry → String → PeerRegistry × Bool
try_mark_rotation_spawned p orr_id = (
  record p { rotation_spawned = add orr_id p.rotation_spawned },
  not (contains p.rotation_spawned orr_id),
)

-- `copied().unwrap_or(false)`
unfoldable pub or_false : Option Bool → Bool
or_false none = false
or_false (some b) = b

unfoldable pub try_mark_rebootstrap_inflight : PeerRegistry → String → PeerRegistry × Bool
try_mark_rebootstrap_inflight p orr_id =
    if or_false (lookup orr_id p.rebootstrap_inflight)
    then (p, false)
    else (record p { rebootstrap_inflight = insert orr_id true p.rebootstrap_inflight }, true)

unfoldable pub clear_rebootstrap_inflight : PeerRegistry → String → PeerRegistry
clear_rebootstrap_inflight p orr_id = record p {
  rebootstrap_inflight = remove orr_id p.rebootstrap_inflight;
}

unfoldable pub should_attempt_rebootstrap : PeerRegistry → String → (now min_interval : ℕ) → Bool
should_attempt_rebootstrap p orr_id now min_interval =
    elim (lookup orr_id p.rebootstrap_last_failure) [
      | none ↦ true
      | some last ↦ leb min_interval (now - last)
    ]

unfoldable pub mark_rebootstrap_failure : PeerRegistry → String → (now : ℕ) → PeerRegistry
mark_rebootstrap_failure p orr_id now = record p {
  rebootstrap_last_failure = insert orr_id now p.rebootstrap_last_failure;
}

unfoldable pub clear_rebootstrap_failure : PeerRegistry → String → PeerRegistry
clear_rebootstrap_failure p orr_id = record p {
  rebootstrap_last_failure = remove orr_id p.rebootstrap_last_failure;
}
