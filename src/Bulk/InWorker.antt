-- ===== src/Bulk/InWorker.antt =====
-- `run_bulk_in_worker` of src/usbip_server/mod.rs: one function for each way in which the worker
-- wakes up. Between them it waits at one of three places: for the read barrier (a request is
-- pending and no read is under way), for a read to complete, or for a command.
use lusbip.Base.{
  ℕ, ◌+◌, ◌-◌, ◌*◌, ◌/◌, ◌%◌, ◌^◌, Bool, true, false, List, [], ◌∷◌, ◌++◌, Option, none, some, ◌==◌,
  if◌then◌else◌, contains, lookup, insert, remove, length, max,
}
use lusbip.Protocol.Header.{UsbIpHeaderBasic}
use lusbip.Protocol.Reply.{
  RetSubmit, usbip_ret_submit_success, usbip_ret_submit_fail, bulk_in_response_header,
}
use lusbip.Bulk.Pending.{push, unlink, should_submit_bulk_in_after_barrier}

pub record BulkInRequest : Type 0 where
  pub header : UsbIpHeaderBasic
  pub transfer_buffer_length : ℕ

pub data BulkInCommand : Type 0 where
  submit : BulkInRequest → BulkInCommand
  unlink_command : ℕ → BulkInCommand

pub record BulkInEvent : Type 0 where
  pub seqnum : ℕ
  pub response : RetSubmit

-- The local variables of the loop. `transfers` are the sizes of the buffers handed to the endpoint
-- and `events` what was sent to the connection, both in order; `cancels` counts `cancel_all`.
pub record BulkInWorker : Type 0 where
  pub pending : List ℕ
  pub requests : List (ℕ × BulkInRequest)
  pub read_pending : Bool
  pub active_seqnum : Option ℕ
  pub transfers : List ℕ
  pub cancels : ℕ
  pub events : List BulkInEvent

unfoldable pub initial : BulkInWorker
initial = record {
  pending = [];
  requests = [];
  read_pending = false;
  active_seqnum = none;
  transfers = [];
  cancels = 0;
  events = [];
}

unfoldable pub accept : BulkInRequest → BulkInWorker → BulkInWorker
accept request w = record w {
  requests = insert request.header.seqnum request w.requests;
  pending = push w.pending request.header.seqnum;
}

unfoldable pub forget : ℕ → BulkInWorker → BulkInWorker
forget seqnum w = record w {
  pending = unlink w.pending seqnum;
  requests = remove seqnum w.requests;
}

-- A command that arrives while the worker waits for the barrier, or is found after it.
unfoldable pub on_command : BulkInCommand → BulkInWorker → BulkInWorker
on_command (submit request) w = accept request w
on_command (unlink_command seqnum) w = forget seqnum w

-- `while let Ok(command) = commands.try_recv()`.
unfoldable pub drain : List BulkInCommand → BulkInWorker → BulkInWorker
drain [] w = w
drain (c ∷ cs) w = drain cs (on_command c w)

-- The buffer of a read: at least a byte, in whole packets.
unfoldable pub transfer_len : ℕ → ℕ → ℕ
transfer_len transfer_buffer_length max_packet_size =
    let requested_len = max transfer_buffer_length 1 in
    (requested_len + max_packet_size - 1) / max_packet_size * max_packet_size

-- The barrier for `seqnum`, whose buffer length was looked up before, has failed.
unfoldable pub barrier_failed : ℕ → BulkInWorker → BulkInWorker
barrier_failed seqnum w = elim (lookup seqnum w.requests) [
  | none ↦ record w { pending = unlink w.pending seqnum }
  | some request ↦ record w {
    pending = unlink w.pending seqnum;
    requests = remove seqnum w.requests;
    events =
        w.events
        ++ (record {
          seqnum = seqnum;
          response = usbip_ret_submit_fail (bulk_in_response_header request.header) 0;
        })
          ∷ [];
  }
]

unfoldable pub barrier_passed : ℕ → ℕ → ℕ → BulkInWorker → BulkInWorker
barrier_passed max_packet_size seqnum transfer_buffer_length w = record w {
  transfers = w.transfers ++ transfer_len transfer_buffer_length max_packet_size ∷ [];
  active_seqnum = some seqnum;
  read_pending = true;
}

-- The barrier for `seqnum` is done and the commands that have arrived by now are `drained`.
unfoldable pub on_barrier : ℕ → ℕ → ℕ → Bool → List BulkInCommand → BulkInWorker → BulkInWorker
on_barrier max_packet_size seqnum transfer_buffer_length passed drained w =
    let t = drain drained w in
    if should_submit_bulk_in_after_barrier t.pending seqnum
    then (if passed
        then barrier_passed max_packet_size seqnum transfer_buffer_length t
        else barrier_failed seqnum t)
    else t

-- What a completed read brought: the bytes, or an error of the transfer.
pub data Completion : Type 0 where
  received : List ℕ → Completion
  failed : Completion

unfoldable pub completion_response : UsbIpHeaderBasic → Completion → RetSubmit
completion_response header (received buffer) =
    usbip_ret_submit_success header 0 (length buffer % 2 ^ 32) buffer []
completion_response header failed = usbip_ret_submit_fail header 0

unfoldable pub answer : ℕ → Completion → BulkInWorker → BulkInWorker
answer seqnum completion w = elim (lookup seqnum w.requests) [
  | none ↦ record w { pending = unlink w.pending seqnum }
  | some request ↦ record w {
    pending = unlink w.pending seqnum;
    requests = remove seqnum w.requests;
    events =
        if contains seqnum w.pending
        then w.events
          ++ (record {
            seqnum = seqnum;
            response = completion_response (bulk_in_response_header request.header) completion;
          })
            ∷ []
        else w.events;
  }
]

-- The read under way completes.
unfoldable pub on_completion : Completion → BulkInWorker → BulkInWorker
on_completion completion w = elim w.active_seqnum [
  | none ↦ record w { read_pending = false }
  | some seqnum ↦ answer seqnum completion (record w { read_pending = false; active_seqnum = none })
]

unfoldable pub is_active : Option ℕ → ℕ → Bool
is_active none seqnum = false
is_active (some s) seqnum = s == seqnum

-- A command that arrives while a read is under way: unlinking its request cancels the read.
unfoldable pub on_read_command : BulkInCommand → BulkInWorker → BulkInWorker
on_read_command (submit request) w = accept request w
on_read_command (unlink_command seqnum) w =
    let t = forget seqnum w in
    if is_active w.active_seqnum seqnum then record t { cancels = t.cancels + 1 } else t

-- A command that arrives while nothing is pending: there is nothing to unlink.
unfoldable pub on_idle_command : BulkInCommand → BulkInWorker → BulkInWorker
on_idle_command (submit request) w = accept request w
on_idle_command (unlink_command seqnum) w = w

-- A pending number without its request is dropped at the head of the loop.
unfoldable pub drop_orphan : ℕ → BulkInWorker → BulkInWorker
drop_orphan seqnum w = record w { pending = unlink w.pending seqnum }
