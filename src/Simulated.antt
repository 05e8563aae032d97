-- ===== src/Simulated.antt =====
-- The simulated interfaces of src/usbip_server/hid.rs and cdc.rs, and src/usbip_server/util.rs.
pub mod Keyboard
pub mod Typing
pub mod Serial
pub mod Verify
