-- ===== src/Sdn/Tests.antt =====
-- Debouncers on which the theorems about them are used.
use dkms.Prelude.{true, false}
use dkms.Sdn.Debounce.{Fires, firing}

abbrev running : Fires
running = record { fire_inflight = true; fire_rerun = false; phase = firing; started = 3 }
