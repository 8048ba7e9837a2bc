-- ===== src/Protocol.antt =====
-- packages/protocol: error codes, signaling messages, control messages and the sequence guard.
pub mod Errors
pub mod Messages
pub mod Sequence
pub mod Control
