-- ===== src/Sdn/Debounce.antt =====
-- sdn/src/debounce.rs: `Debouncer`. Each method holds the lock of the state and is one step; so is
-- each turn of the worker, and each step of the thread that runs the callback. Times are numbers.
pub mod Cycle
pub mod Fire
use dkms.Prelude.{
  ℕ, zero, suc, ◌+◌, ◌-◌, Bool, true, false, ◌&&◌, Option, none, some, leb, ◌==◌, if◌then◌else◌,
}

pub record State : Type 0 where
  pub window : ℕ
  pub max_wait : ℕ
  pub pending : Bool
  pub cycle_start : Option ℕ
  pub last_request : Option ℕ
  pub closed : Bool

unfoldable pub new : ℕ → ℕ → State
new window max_wait = record {
  window = window;
  max_wait = max_wait;
  pending = false;
  cycle_start = none;
  last_request = none;
  closed = false;
}

-- `s.pending = false; s.cycle_start = None; s.last_request = None;`
unfoldable pub reset : State → State
reset s = record s { pending = false; cycle_start = none; last_request = none }

unfoldable pub request_cycle : State → Option ℕ → ℕ → State × Bool
request_cycle s (some cs) now =
    if leb s.max_wait (now - cs)
    then (reset s, true)
    else (record s { pending = true; last_request = some now }, false)
request_cycle s none now =
    (record s { cycle_start = some now; pending = true; last_request = some now }, false)

-- The state, and whether the callback is to be fired.
unfoldable pub request : State → ℕ → State × Bool
request s now =
    if s.closed
    then (s, false)
    else if s.window == 0
    then (reset s, true)
    else request_cycle s s.cycle_start now

unfoldable pub flush : State → State × Bool
flush s = if s.pending then (reset s, true) else (s, false)

unfoldable pub cancel : State → State
cancel s = reset s

unfoldable pub update_timing : State → ℕ → ℕ → State
update_timing s window max_wait = record s { window = window; max_wait = max_wait }

unfoldable pub shutdown : State → State
shutdown s = record (reset s) { closed = true }

-- `last + s.window <= Instant::now()`
unfoldable pub is_due : State → Option ℕ → ℕ → Bool
is_due s none now = false
is_due s (some last) now = leb (last + s.window) now

-- What the worker does when its deadline has passed.
unfoldable pub worker : State → ℕ → State × Bool
worker s now =
    if s.closed
    then (s, false)
    else if s.pending && is_due s s.last_request now
    then (reset s, true)
    else (s, false)

-- Where the thread that runs the callback is: before the store of `fire_rerun`, in the callback,
-- and between its last look at `fire_rerun` and the store of `fire_inflight`.
pub data Phase : Type 0 where
  idle starting firing closing : Phase

pub record Fires : Type 0 where
  pub fire_inflight : Bool
  pub fire_rerun : Bool
  pub phase : Phase
  pub started : ℕ

unfoldable pub spawn_fire : Fires → Fires
spawn_fire f =
    if f.fire_inflight
    then record f { fire_rerun = true }
    else record f { fire_inflight = true; phase = starting }

-- One step of the thread.
unfoldable pub advance : Fires → Phase → Fires
advance f idle = f
advance f starting = record f { fire_rerun = false; phase = firing; started = suc f.started }
advance f firing =
    if f.fire_rerun
    then record f { fire_rerun = false; phase = starting }
    else record f { phase = closing }
advance f closing = record f { fire_inflight = false; phase = idle }

unfoldable pub run_fire : Fires → Fires
run_fire f = advance f f.phase
