-- ===== src/FrameMac.antt =====
-- common/src/crypto/frame_mac.rs: the MAC of the frames between two QKCs, and the window that
-- refuses replayed ones.
pub mod Bitmap
pub mod Window
pub mod Message
mod Tests
