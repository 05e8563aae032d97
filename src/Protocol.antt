-- ===== src/Protocol.antt =====
-- src/usbip_server/usbip_protocol.rs and setup.rs: the USB/IP wire format.
pub mod Stream
pub mod Setup
pub mod Header
pub mod Command
pub mod RoundTrip
pub mod Errors
pub mod Reply
