-- ===== src/Server.antt =====
-- The server program of src/server.rs.
pub mod Filter
pub mod Exported
pub mod Status
pub mod Told
pub mod Synced
