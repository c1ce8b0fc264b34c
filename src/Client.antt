-- ===== src/Client.antt =====
-- The resilient client of crates/client-core/src/resilient.rs.
pub mod Network
pub mod Connection
pub mod Calls
pub mod Files
pub mod Rules
pub mod Steps
pub mod Epochs
pub mod Methods
pub mod Sessions
pub mod Servers
pub mod SameServer
pub mod Reconnect
pub mod Outcomes
pub mod Cooldown
pub mod Reopen
pub mod Directories
pub mod RoundTrip
