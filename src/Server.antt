-- ===== src/Server.antt =====
-- The server daemon of servers/linux/server-daemon/src/main.rs: requests, logins, views, limits.
pub mod RateLimit
pub mod Service
pub mod Login
pub mod Transfer
pub mod Handle
pub mod Gate
pub mod Sessions
pub mod Transfers
pub mod Views
pub mod Chunks
pub mod Config
pub mod Budgets
pub mod Occupancy
pub mod Window
