-- ===== src/Connection/Once.antt =====
-- Every request of a run of `handler` in src/usbip_server/mod.rs is answered at most once.
use lusbip.Connection.Runs.{Runs}
