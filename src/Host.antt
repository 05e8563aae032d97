-- ===== src/Host.antt =====
-- src/usbip_server/host.rs: transfers to the real devices of the host.
pub mod Calls
pub mod Interface
pub mod Handlers
pub mod Transfer
pub mod Panics
