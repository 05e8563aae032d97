-- ===== src/Bulk.antt =====
-- The workers of src/usbip_server/mod.rs that serve bulk endpoints.
pub mod Pending
pub mod InWorker
pub mod InTrace
pub mod InValid
pub mod InOrder
pub mod InShift
pub mod InMoves
pub mod OutWorker
pub mod OutRuns
pub mod OutTrace
pub mod InServed
