-- ===== src/Client.antt =====
-- The client of src/client.rs and the lists of src/tui.rs. Texts are lists of code points.
pub mod Texts
pub mod Listing
pub mod States
pub mod Shown
pub mod Labels
pub mod Commands
pub mod Selection
pub mod Occupied
