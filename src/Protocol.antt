-- ===== src/Protocol.antt =====
-- crates/protocol/src/lib.rs: messages and their parts, the version word, and frames.
pub mod Access
pub mod Version
pub mod Frame
pub mod Messages
pub mod Transport
