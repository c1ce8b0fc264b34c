-- ===== src/Prefetch.antt =====
-- Sequential read-ahead of crates/client-core/src/cached.rs: the blocks of demand reads, and the
-- controller of speculative reads.
pub mod Blocks
pub mod Stream
pub mod Controller
pub mod Schedule
pub mod Demand
mod Slots
pub mod Limits
pub mod Histories
