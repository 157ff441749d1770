-- ===== src/Wire.antt =====
-- wire/src/lib.rs: the binary TCP frames that the QKCs exchange with one another and with the ORR.
pub mod Frame
pub mod Cursor
pub mod Encode
pub mod Decode
pub mod Kinds
pub mod Trailer
pub mod Notify
pub mod RoundTrip
pub mod Bounds
mod Tests
