-- ===== src/Accounts.antt =====
-- The users of a server in crates/auth/src/lib.rs.
mod Results
pub mod Text
pub mod Trim
pub mod Users
pub mod Records
pub mod Views
pub mod Refinement
pub mod Histories
pub mod Codes
pub mod CodeRoundTrip
unfoldable pub use Results.*
