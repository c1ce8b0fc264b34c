-- ===== src/Registry.antt =====
-- The nodes that a session knows, and their registry, in crates/server-core/src/lib.rs.
pub mod Tables
pub mod Nodes
pub mod Permits
pub mod Balance
