-- ===== src/Sdn.antt =====
-- sdn/src: when the rates are computed anew.
pub mod Debounce
mod Tests
