-- ===== src/Lib.antt =====
-- The state and the protocols of a distributed key management system over QKD links: key
-- management nodes (`dkms`) that serve session keys to applications (SAEs), onion routers (`orr`)
-- that carry transport keys between them, link nodes (`qkc`) that encrypt each hop with keys of a
-- KME, and a controller (`sdn`) that computes rates. A path here is that of the file from the
-- repository's root.
--
-- - Wire: wire/src/lib.rs, the frames between link nodes and to the router. `encode` and
--   `write_frame` are Encode.antt, `read_frame` and `decode_body` are Decode.antt, the trailer of
--   authenticated frames is Trailer.antt, the list of ids of a NOTIFY is Notify.antt and the
--   authenticated kinds are Kinds.antt. Fallible code returns `Outcome`, which has a case for a
--   panic. `read_body` reads its total in rounds of `chunk` bytes on the fuel `total / chunk + 1`,
--   which is enough because each round but the last takes a whole chunk.
-- - FrameMac: common/src/crypto/frame_mac.rs. Message.antt is `build`, `tag` and `verify` over an
--   HMAC that is a parameter; Bitmap.antt is the `Vec<u64>` of a window; Window.antt is
--   `ReplayWindow` with `check_and_set`, and Window/Spec.antt the specification of one session.
-- - Aead: common/src/crypto/aead.rs, the two functions that keep the tag apart.
-- - Orr: Onion.antt is orr/src/onion.rs, the layers of an onion, over Aead; OnionReplay.antt is
--   orr/src/onion_replay.rs, one window for each origin, over FrameMac; Macs.antt is
--   orr/src/macs.rs, the MACs of the messages of a rotation. Peers.antt is orr/src/peers.rs,
--   `PeerRegistry`, with its flags in Flags.antt and the verdicts on announced keys in
--   Verdicts.antt. Rotation.antt is the handlers of orr/src/rotation.rs, over Peers and Macs, and
--   Rotation/Initiator.antt is `run_one_rotation` and the rounds of its task. Bootstrap.antt is
--   orr/src/bootstrap.rs with the handler `establish_secret` of orr/src/grpc_server.rs,
--   Bootstrap/Peer.antt the rounds of `bootstrap_peer`, and Bootstrap/Passive.antt
--   `trigger_passive_rebootstrap` of orr/src/service.rs. A call of the peer is a function from
--   what is sent to what is answered, or the answer; what other tasks do to the registry while a
--   task waits is a function as well; each round of a loop is a step. HKDF, SHA-256, HMAC, the
--   KEM, the cipher, the checks of certificates and signatures, `to_lowercase` and MessagePack are
--   parameters, and the UUIDs and keys that are drawn are arguments.
-- - Dkms: Security.antt is common/src/security.rs; Pending.antt is dkms/src/state/pending.rs, the
--   session keys that wait for their SAEs; Buffer.antt and Pool.antt are dkms/src/state/buffer.rs
--   and pool.rs, the transport keys of each peer; AckPending.antt is
--   dkms/src/control/ack_pending.rs, the keys that wait for an ACK; Generator.antt is `on_ack` of
--   dkms/src/control/generator.rs, which moves a key from the one to the other.
-- - Qkc: the link node, from qkc/src. KeyStore.antt is keystore.rs, the keys of a link: the ring
--   to encrypt with, the map to decrypt with, the ids that a NOTIFY announces and the banking of
--   keys from the KME, at most `max_bank_rounds` rounds, as the source bounds them;
--   KeyStore/Wait.antt is the calls that wait for keys. What the KME answers, and what comes while
--   a call waits, are arguments; nothing else changes the ring while banking waits for the KME.
--   Routing.antt is routing.rs, the forwarding tables. Crypto.antt is crypto.rs, the one-time pad;
--   `chunks_in` has as many rounds as there are bytes, and each round takes at least one.
--   SecretStore.antt and PqcSource.antt are pqc_source.rs, the secrets of epochs and the keys that
--   are derived from them; `derive_in` has as many rounds as bytes are wanted, and each round but
--   the last gives 8160 of them. LinkKeys.antt and FrameAuth.antt are frame_auth.rs, the keys for
--   the MACs of a link and the authentication of its frames, over FrameMac and SecretStore.
--   LinkMac.antt is common/src/crypto/link_mac.rs, the MAC of the PQC handshake. Handshake.antt is
--   pqc_handshake.rs, the handshake of the epochs over SecretStore: Messages.antt is what is sent
--   and accepted under each policy, Handlers.antt the handlers and the rounds of `establish`, and
--   Relink.antt `establish_up_to` and `relink`, where `establish` is a function. Service.antt is
--   the links of service.rs and `deliver_local`, and Relay.antt is relay.rs, which sends a frame
--   on hop by hop with all of these; calls over one service are chained in a small monad, and what
--   the channel of a local consumer answers to `try_send` is an argument. HKDF, which may refuse a
--   length, HMAC, the KEM, signatures, the check of a chain of certificates, the hash of a frame
--   and the reading and printing of UUIDs are parameters. Error.antt is error.rs.
-- - Sdn: sdn/src/debounce.rs, the debouncer of the solver: the cycle of requests, the turn of the
--   worker and the thread that runs the callback, each as steps.
-- - Prelude: what they share: Boolean tests, lists over the native numbers, byte codes, bits,
--   `Outcome`, association lists for maps, lists for sets, and Epochs.antt, the `BTreeMap` from
--   epochs to secrets that Qkc and Orr share.
--
-- A method that holds a lock is one step, and the clock is an argument of each step. Numbers are
-- the native ones; a width that the source cuts to is a `%`. Left out are sockets, HTTP, gRPC, TLS
-- and metrics; the cryptographic primitives, which are parameters where they are used; and what
-- computes in floating point, the solvers, the estimator of rates and the token buckets. The
-- relaying of the onion routers' service, the loop that rotates the epochs of the PQC handshake
-- and the topology are not modelled.
pub mod Prelude
pub mod Wire
pub mod Aead
pub mod FrameMac
pub mod Dkms
pub mod Orr
pub mod Qkc
pub mod Sdn
