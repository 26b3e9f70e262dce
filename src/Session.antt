-- ===== src/Session.antt =====
-- observer/src/protocol.rs: a session with a peer, from its handshake to its end.
pub mod Stats
pub mod Bucket
pub mod Messages
pub mod State
pub mod Blocks
pub mod Inv
pub mod Headers
pub mod Lenient
pub mod Gossip
pub mod Dispatch
pub mod Invariant
pub mod Silence
pub mod Handshake
