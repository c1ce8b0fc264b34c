-- ===== src/Cache.antt =====
-- crates/cache/src/lib.rs: ranges of files by revision, and the tier of them in memory.
pub mod Keys
pub mod Content
pub mod Assembly
pub mod Completeness
pub mod Hot
