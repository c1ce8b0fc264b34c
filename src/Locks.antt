-- ===== src/Locks.antt =====
-- The advisory byte-range locks of crates/server-core/src/lib.rs, and the types of
-- crates/protocol/src/lib.rs that they are made of.
mod Table
pub mod Session
pub mod Coverage
mod Ranges
pub mod Replace
mod Conflicts
pub mod Exclusion
pub mod Release
pub mod Answers
pub mod Histories
unfoldable pub use Table.*
