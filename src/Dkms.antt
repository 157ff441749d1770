-- ===== src/Dkms.antt =====
-- dkms/src/state and dkms/src/control: the stores of keys.
pub mod Security
pub mod Pending
pub mod Buffer
pub mod Pool
pub mod AckPending
pub mod Generator
mod Tests
