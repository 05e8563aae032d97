-- ===== src/Tests/Connections.antt =====
-- Runs of `handler` of src/usbip_server/mod.rs at a concrete device.
use lusbip.Base.{ℕ, ◌≡◌, refl, true, [], ◌∷◌, some, arith}
use lusbip.Protocol.Header.{UsbIpHeaderBasic, usbip_ret_submit_code}
use lusbip.Protocol.Reply.{RetSubmit, response_header, usbip_ret_submit_fail}
use lusbip.Bulk.InOrder
use lusbip.Bulk.InWorker.{
  BulkInEvent, BulkInRequest, BulkInWorker, submit, initial, on_idle_command, on_barrier,
  on_completion, failed,
}
use lusbip.Bulk.OutWorker.{BulkOutEvent}
use lusbip.Connection.Defs.{
  Session, connected, ret_submit, on_import, send_in, on_unlink, on_in_event, on_out_event,
}
use lusbip.Connection.Runs.{Run, Runs}
use lusbip.Connection.Stale.{import-events}
use lusbip.Device.Codes.{direction}
use lusbip.Tests.Control.{control_stick}

abbrev header : UsbIpHeaderBasic
header = record { command = 1; seqnum = 7; devid = 0x10002; direction = 1; ep = 1 }

abbrev unlink_header : UsbIpHeaderBasic
unlink_header = record { command = 2; seqnum = 8; devid = 0x10002; direction = 0; ep = 0 }

abbrev imported : Session ℕ ℕ
imported = on_import (λ address. true) (some control_stick) connected

abbrev late : RetSubmit
late = usbip_ret_submit_fail (response_header usbip_ret_submit_code header) 0

abbrev late_out : BulkOutEvent
late_out = record { seqnum = 7; generation = 0; response = late }

abbrev late_in : BulkInEvent
late_in = record { seqnum = 7; response = late }

-- Request 7 goes to the worker of endpoint 0x81, and is unlinked; the answer of the worker is dropped.
abbrev sent : Session ℕ ℕ
sent = send_in header 64 imported

abbrev unlinked : Run ℕ ℕ
unlinked = record {
  session = on_in_event late_in (on_unlink unlink_header 7 sent);
  submitted = 7 ∷ [];
  via = 7 ∷ [];
  consumed = 7 ∷ [];
  unlinked = 7 ∷ [];
}

abbrev read_request : BulkInRequest
read_request = record { header = header; transfer_buffer_length = 64 }

-- The worker when it has read for request 7.
abbrev served : BulkInWorker
served =
    on_completion failed
      (on_barrier 64 7 64 true [] (on_idle_command (submit read_request) initial))

import-events_example :
    (on_out_event late_out imported ≡ imported)
    × ((on_in_event late_in imported).written ≡ ret_submit late ∷ [])
unfolding connected
import-events_example =
    import-events (λ address. true) (some control_stick) connected late_out late_in (omega arith)
      refl
