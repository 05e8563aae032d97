-- ===== src/Connection.antt =====
-- The handler of a connection in src/usbip_server/mod.rs.
pub mod Defs
pub mod Tables
pub mod Runs
pub mod Keys
pub mod Submits
pub mod Unlinks
pub mod Once
pub mod Stale
