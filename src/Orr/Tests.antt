-- ===== src/Orr/Tests.antt =====
-- Onions on which the theorems about replays are used.
mod Onions
mod Rotation
mod Establish
mod Attempts
use dkms.Prelude.{◌≡◌, ◌≢◌, ◌<◌, refl, List, [], ◌∷◌, arith, length}
use dkms.Prelude.Outcome.{ok}
use dkms.Prelude.Assoc.{string_keys, lookup, insert, remove}
use dkms.FrameMac.Window.{
  check_and_set, check_session, check_current, shift, reset_to, leave, contains, is_previous,
  new as new_window, retired_kept,
}
use dkms.FrameMac.Window.Cases.{IsValid}
use dkms.FrameMac.Window.Valid.{new-IsValid}
use dkms.FrameMac.Window.Once.{run as run_window}
use dkms.Orr.OnionReplay.{OnionReplay, window_of, onion_window, check}
use dkms.Orr.OnionReplay.Once.{window, Onion, run, frames_of, onion_once, window-run}

abbrev replay : OnionReplay
replay = record { by_origin = [] }

replay-IsValid : IsValid (window replay "orr_1")
unfolding window_of lookup
replay-IsValid = (new-IsValid onion_window).0

abbrev onions : List Onion
onions = (20, "orr_2", 7, 1) ∷ (30, "orr_1", 7, 2) ∷ []

first_accepted : (check replay 10 "orr_1" 7 1).1 ≡ ok tt
unfolding check check_and_set check_session check_current shift reset_to leave contains is_previous
    new_window window_of lookup
first_accepted = refl

few_retired :
    length (window (run (check replay 10 "orr_1" 7 1).0 onions) "orr_1").retired < retired_kept
unfolding run check check_and_set check_session check_current shift reset_to leave contains
    is_previous new_window window_of lookup insert remove
few_retired = omega arith

onion_once_example : (check (run (check replay 10 "orr_1" 7 1).0 onions) 40 "orr_1" 7 1).1 ≢ ok tt
onion_once_example =
    onion_once replay 10 40 "orr_1" 7 1 onions replay-IsValid first_accepted few_retired
