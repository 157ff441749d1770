-- ===== src/Orr/OnionReplay.antt =====
-- orr/src/onion_replay.rs: `OnionReplay`. The clock that `check_and_set` reads is an argument; a
-- call holds the lock of its window, so each call is one step.
pub mod Once
use dkms.Prelude.{ℕ, String, Option, none, some, List, [], length}
use dkms.Prelude.Outcome.{Outcome}
use dkms.Prelude.Assoc.{Assoc, string_keys, lookup, insert, remove}
use dkms.FrameMac.Window.{ReplayWindow, ReplayError, check_and_set, new as new_window}

abbrev pub onion_window : ℕ
onion_window = 65_536

pub record OnionReplay : Type 0 where
  pub by_origin : Assoc String ReplayWindow

unfoldable pub new : OnionReplay
new = record { by_origin = [] }

-- `entry(origin).or_insert_with(…)`
unfoldable pub window_of : Option ReplayWindow → ReplayWindow
window_of none = new_window onion_window
window_of (some w) = w

unfoldable pub check :
    OnionReplay
    → (now : ℕ) (origin : String) (session counter : ℕ)
    → OnionReplay × Outcome ReplayError (Unit {0})
check r now origin session counter =
    let (w, result) = check_and_set (window_of (lookup origin r.by_origin)) now session counter in
    (record r { by_origin = insert origin w r.by_origin }, result)

unfoldable pub tracked_origins : OnionReplay → ℕ
tracked_origins r = length r.by_origin

unfoldable pub forget : OnionReplay → String → OnionReplay
forget r origin = record r { by_origin = remove origin r.by_origin }
