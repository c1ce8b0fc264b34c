-- ===== src/Examples.antt =====
-- The theorems at concrete inputs.
mod Locking
mod Caching
mod Prefetching
mod Daemon
mod Wire
mod Answers
mod Clients
mod Users
mod Nodes
mod Disk
mod Caches
