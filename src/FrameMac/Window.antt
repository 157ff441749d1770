-- ===== src/FrameMac/Window.antt =====
-- common/src/crypto/frame_mac.rs: `ReplayWindow`. The clock is an argument of each call, in
-- nanoseconds; the two reads of it that one call makes are taken to be equal.
pub mod Spec
pub mod Refine
pub mod Cases
pub mod Valid
pub mod Taken
pub mod Blocked
pub mod Earlier
pub mod Once
use dkms.Prelude.{
  ℕ, ◌+◌, ◌-◌, ◌*◌, ◌/◌, Bool, true, false, not, Option, none, some, List, [], ◌∷◌, ◌++◌, max,
  length, drop, replicate, ltb, leb, ◌==◌, if◌then◌else◌, ◌||◌,
}
use dkms.Prelude.Outcome.{Outcome, ok, err}
use dkms.FrameMac.Bitmap.{is_set, set_bit, clear, shift_bits}

pub data ReplayError : Type 0 where
  replayed : ℕ → ℕ → ReplayError
  too_old : ℕ → ℕ → ℕ → ReplayError
  retired_session : ℕ → ReplayError
  zero_counter : ReplayError

pub data SessionAdopt : Type 0 where
  any monotonic after_quiet : SessionAdopt

-- 10 s
abbrev pub adopt_after_quiet : ℕ
adopt_after_quiet = 10_000_000_000

abbrev pub retired_kept : ℕ
retired_kept = 8

abbrev pub default_window : ℕ
default_window = 1024

-- The triple of `prev`.
pub record Previous : Type 0 where
  pub session : ℕ
  pub highest : ℕ
  pub bits : List ℕ

pub record ReplayWindow : Type 0 where
  pub width : ℕ
  pub session : Option ℕ
  pub highest : ℕ
  pub bits : List ℕ
  pub retired : List ℕ
  pub prev : Option Previous
  pub adopt : SessionAdopt
  pub last_accept : Option ℕ
  pub quiet : ℕ

unfoldable pub new : ℕ → ReplayWindow
new width = record {
  width = max width 64;
  session = none;
  highest = 0;
  bits = replicate ((max width 64 + 63) / 64) 0;
  retired = [];
  prev = none;
  adopt = any;
  last_accept = none;
  quiet = adopt_after_quiet;
}

unfoldable pub set_quiet : ReplayWindow → ℕ → ReplayWindow
set_quiet w quiet = record w { quiet = quiet }

unfoldable pub new_monotonic : ℕ → ReplayWindow
new_monotonic width = record (new width) { adopt = monotonic }

unfoldable pub new_quiet_gated : ℕ → ReplayWindow
new_quiet_gated width = record (new width) { adopt = after_quiet }

-- `retired.push(p)`, and the oldest goes where more than `retired_kept` are held
unfoldable pub retire : List ℕ → ℕ → List ℕ
retire retired p =
    let held = retired ++ p ∷ [] in if ltb retired_kept (length held) then drop 1 held else held

-- What becomes of `retired` where `prev` is taken.
unfoldable pub retire_prev : List ℕ → Option Previous → List ℕ
retire_prev retired none = retired
retire_prev retired (some p) = retire retired p.session

-- `if let Some(old) = self.session { if old != session { … } }`
unfoldable pub leave : ReplayWindow → Option ℕ → ℕ → ReplayWindow
leave w none session = w
leave w (some old) session = if old == session then w else record w {
  retired = retire_prev w.retired w.prev;
  prev = some (record { session = old; highest = w.highest; bits = w.bits });
}

unfoldable pub reset_to : ReplayWindow → ℕ → ReplayWindow
reset_to w session =
    let v = leave w w.session session in
    record v { session = some session; highest = 0; bits = clear v.bits }

-- The state and result of a check.
abbrev pub Checked : Type 0 → Type 0
Checked S = S × Outcome ReplayError (Unit {0})

-- `check_and_set_prev`, where `prev` is the session `p`
unfoldable pub check_previous : ℕ → Previous → ℕ → ℕ → Checked Previous
check_previous width p session counter =
    if ltb p.highest counter
    then (
      record p {
        highest = counter;
        bits =
            set_bit
              (if leb width (counter - p.highest)
                then clear p.bits
                else shift_bits p.bits (counter - p.highest))
              0;
      },
      ok tt,
    )
    else let back = p.highest - counter in
      if leb width back
      then (p, err (too_old session counter (p.highest - (width - 1))))
      else if is_set p.bits back
      then (p, err (replayed session counter))
      else (record p { bits = set_bit p.bits back }, ok tt)

unfoldable pub check_and_set_prev : ReplayWindow → ℕ → ℕ → Checked ReplayWindow
check_and_set_prev w session counter = elim w.prev [
  | none ↦ (w, err (retired_session session))
  | some p ↦
      let (p', r) = check_previous w.width p session counter in (record w { prev = some p' }, r)
]

unfoldable pub shift : ReplayWindow → ℕ → ReplayWindow
shift w by =
    if leb w.width by
    then record w { bits = clear w.bits }
    else record w { bits = shift_bits w.bits by }

-- From `self.last_accept = Some(…)` on: the counter against the current session.
unfoldable pub check_current : ReplayWindow → ℕ → ℕ → ℕ → Checked ReplayWindow
check_current w now session counter =
    let v = record w { last_accept = some now } in
    if ltb v.highest counter
    then (let u = shift v (counter - v.highest) in
        (record u { highest = counter; bits = set_bit u.bits 0 }, ok tt))
    else let back = v.highest - counter in
      if leb v.width back
      then (v, err (too_old session counter (v.highest - (v.width - 1))))
      else if is_set v.bits back
      then (v, err (replayed session counter))
      else (record v { bits = set_bit v.bits back }, ok tt)

unfoldable pub contains : List ℕ → ℕ → Bool
contains [] s = false
contains (x ∷ xs) s = x == s || contains xs s

-- `self.last_accept.is_none_or(|t| t.elapsed() >= self.quiet)`
unfoldable pub is_quiet : Option ℕ → ℕ → ℕ → Bool
is_quiet none now quiet = true
is_quiet (some t) now quiet = leb quiet (now - t)

-- Is the session `session` to replace the current session `cur`?
unfoldable pub adopts : ReplayWindow → SessionAdopt → ℕ → ℕ → ℕ → Bool
adopts w any now cur session = true
adopts w monotonic now cur session = ltb cur session
adopts w after_quiet now cur session = is_quiet w.last_accept now w.quiet

-- `prev` is the session of the frame
unfoldable pub is_previous : Option Previous → ℕ → Bool
is_previous none session = false
is_previous (some p) session = p.session == session

unfoldable pub check_session : ReplayWindow → Option ℕ → ℕ → ℕ → ℕ → Checked ReplayWindow
check_session w none now session counter = check_current (reset_to w session) now session counter
check_session w (some cur) now session counter =
    if cur == session
    then check_current w now session counter
    else if adopts w w.adopt now cur session
    then check_current (reset_to w session) now session counter
    else (w, err (retired_session session))

unfoldable pub check_and_set : ReplayWindow → ℕ → ℕ → ℕ → Checked ReplayWindow
check_and_set w now session counter =
    if counter == 0
    then (w, err zero_counter)
    else if contains w.retired session
    then (w, err (retired_session session))
    else if is_previous w.prev session
    then check_and_set_prev w session counter
    else check_session w w.session now session counter
