-- ===== src/Tests/Workers.antt =====
-- The workers of src/usbip_server/mod.rs at concrete inputs.
use lusbip.Base.{ℕ, ◌≡◌, refl, [], ◌∷◌, true, none, some, lookup, insert, contains}
use lusbip.Protocol.Header.{UsbIpHeaderBasic}
use lusbip.Bulk.Pending.{push, next}
use lusbip.Bulk.InWorker.{
  BulkInRequest, submit as submit_in, unlink_command as unlink_in, BulkInWorker,
  initial as initial_in, accept, is_active, on_idle_command, on_barrier,
}
use lusbip.Bulk.InTrace.{idle as idle_in, barrier}
use lusbip.Bulk.InOrder.{Run, Runs, start as start_run, step as step_run}
use lusbip.Bulk.InMoves.{IsAccounted, Runs-IsAccounted}
use lusbip.Bulk.OutWorker.{
  BulkOutRequest, BulkOutWorker, submit as submit_out, initial as initial_out, on_command,
}
use lusbip.Bulk.OutRuns.{
  Reach, start as start_out, step as step_out, command as command_out, taken, acknowledged,
}
use lusbip.Bulk.OutTrace.{Reach-acknowledged}

abbrev header : UsbIpHeaderBasic
header = record { command = 1; seqnum = 7; devid = 0x10002; direction = 1; ep = 1 }

abbrev read_request : BulkInRequest
read_request = record { header = header; transfer_buffer_length = 100 }

-- The worker when request 7 has come in.
abbrev one_pending : BulkInWorker
one_pending = on_idle_command (submit_in read_request) initial_in

abbrev first_run : Run
first_run = record { worker = one_pending; submitted = 7 ∷ []; withdrawn = [] }

-- Request 7 comes in, and is unlinked before its barrier is done.
abbrev unlinked_run : Run
unlinked_run = record {
  worker = on_barrier 64 7 100 true (unlink_in 7 ∷ []) one_pending;
  submitted = 7 ∷ [];
  withdrawn = 7 ∷ [];
}

unlinked_run-Runs : Runs 64 unlinked_run
unfolding initial_in on_idle_command accept push next lookup contains is_active insert
unlinked_run-Runs =
    step_run (step_run start_run (idle_in (submit_in read_request) refl refl (refl, refl)))
      (barrier 7 read_request true (unlink_in 7 ∷ []) refl refl refl (tt, tt))

Runs-IsAccounted_example : IsAccounted unlinked_run
Runs-IsAccounted_example = Runs-IsAccounted unlinked_run-Runs

abbrev write_request : BulkOutRequest
write_request = record { header = header; data_bytes = 1 ∷ 2 ∷ []; generation = 0 }

-- A worker that has written two bytes, and one whose write has failed. Errors are numbers.
abbrev after_write : BulkOutWorker ℕ
after_write = on_command none (submit_out write_request) initial_out

abbrev after_failure : BulkOutWorker ℕ
after_failure = on_command (some 5) (submit_out write_request) initial_out

after_write-Reach : Reach after_write
unfolding initial_out
after_write-Reach = step_out start_out (command_out none (submit_out write_request) refl)

Reach-acknowledged_example : acknowledged after_write.events ≡ taken after_write.calls
Reach-acknowledged_example = Reach-acknowledged after_write-Reach
