-- ===== src/Qkc.antt =====
-- qkc/src: the store of link keys.
pub mod KeyStore
pub mod LinkKeys
pub mod Routing
pub mod Error
pub mod Crypto
pub mod SecretStore
pub mod PqcSource
pub mod FrameAuth
pub mod Service
pub mod Relay
pub mod LinkMac
pub mod Handshake
mod Tests
