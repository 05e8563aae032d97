-- ===== src/Tui.antt =====
-- The terminal interface of src/tui.rs: its loop, its keys and its frames. The lists that it shows are
-- in Client.Selection.
pub mod Keys
pub mod Refresh
pub mod Loop
pub mod Pending
pub mod Range
pub mod Steps
pub mod Keeps
pub mod Runs
pub mod Stale
pub mod Items
pub mod Frame
pub mod Layout
pub mod Visible
