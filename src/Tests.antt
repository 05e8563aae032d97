-- ===== src/Tests.antt =====
-- Runs of the models at concrete inputs.
pub mod Socket
pub mod Requests
pub mod Devices
pub mod Occupants
pub mod Descriptors
pub mod Workers
pub mod Messages
pub mod Control
pub mod Connections
pub mod Clients
pub mod Terminal
pub mod Hosts
