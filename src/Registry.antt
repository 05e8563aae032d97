-- ===== src/Registry.antt =====
-- `UsbIpServer` of src/usbip_server/mod.rs: the devices that can be imported and those in use.
pub mod Defs
pub mod Unique
pub mod Invariant
pub mod Import
pub mod Sync
pub mod Races
pub mod Sessions
pub mod Occupancy
pub mod Held
pub mod Tracking
pub mod Stale
pub mod Overlap
pub mod Ledger
pub mod Refines
pub mod Devlist
