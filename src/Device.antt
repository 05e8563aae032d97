-- ===== src/Device.antt =====
-- src/usbip_server/device.rs, endpoint.rs, interface.rs and consts.rs: the exported device.
-- The handles of the `nusb` library are type parameters: `D` for its `Device`, `I` for its
-- `Interface`. Paths and bus ids are lists of bytes, the strings of the pool lists of code points.
pub mod Codes
pub mod Strings
pub mod Endpoints
pub mod Export
pub mod Replies
pub mod Descriptors
pub mod Standard
pub mod Answers
pub mod Urb
pub mod Submit
