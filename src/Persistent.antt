-- ===== src/Persistent.antt =====
-- The persistent cache of crates/cache/src/lib.rs.
pub mod Store
pub mod Table
pub mod Commits
pub mod Inserts
pub mod Reads
pub mod Values
pub mod Ranges
pub mod Backing
pub mod Holding
pub mod Lookups
pub mod Insertion
pub mod Stored
pub mod Runs
pub mod Keeping
pub mod Removal
pub mod Budget
pub mod Bounds
pub mod Answers
pub mod Listings
pub mod Invalidation
pub mod Histories
pub mod Limits
pub mod Content
pub mod Covers
pub mod Faithful
pub mod Opening
pub mod Loading
pub mod Reopening
