-- ===== src/Orr.antt =====
-- orr/src: the layers of an onion, the windows against replays, one for each origin, and the MACs of
-- the rotation.
pub mod Onion
pub mod OnionReplay
pub mod Macs
pub mod Peers
pub mod Rotation
pub mod Bootstrap
mod Tests
