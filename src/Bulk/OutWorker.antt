-- ===== src/Bulk/OutWorker.antt =====
-- `run_bulk_out_worker` of src/usbip_server/mod.rs: one function for each way in which the worker
-- wakes up. What a call of the endpoint's writer answered, with its timeout, is an argument; `E` are
-- the texts of errors. The calls and everything sent are kept, latest first.
use lusbip.Base.{
  ℕ, ◌%◌, ◌^◌, Bool, true, false, List, [], ◌∷◌, Option, none, some, if◌then◌else◌, length,
}
use lusbip.Protocol.Header.{UsbIpHeaderBasic}
use lusbip.Protocol.Reply.{
  RetSubmit, usbip_ret_submit_success, usbip_ret_submit_fail, bulk_in_response_header,
}

pub record BulkOutRequest : Type 0 where
  pub header : UsbIpHeaderBasic
  pub data_bytes : List ℕ
  pub generation : ℕ

pub record BulkOutEvent : Type 0 where
  pub seqnum : ℕ
  pub generation : ℕ
  pub response : RetSubmit

-- The commands; the answers to the last three go to the sender's own channel.
pub data BulkOutCommand : Type 0 where
  submit : BulkOutRequest → BulkOutCommand
  flush : BulkOutCommand
  shutdown : BulkOutCommand
  unlink_command : ℕ → BulkOutCommand

-- A call of the writer with its answer: `none` is success.
pub data WriterCall (E : Type 0) : Type 0 where
  write_all : List ℕ → Option E → WriterCall E
  flush_call : Option E → WriterCall E

-- The local variables of the loop: `needs_flush` of `BufferedBulkOutState`, `failure` of
-- `BulkOutHealth`; `running` is false once the worker has returned.
pub record BulkOutWorker (E : Type 0) : Type 0 where
  pub needs_flush : Bool
  pub failure : Option E
  pub running : Bool
  pub calls : List (WriterCall E)
  pub events : List BulkOutEvent
  pub replies : List (Option E)

unfoldable pub initial : {E : Type 0} → BulkOutWorker E
initial = record {
  needs_flush = false;
  failure = none;
  running = true;
  calls = [];
  events = [];
  replies = [];
}

unfoldable pub event : BulkOutRequest → RetSubmit → BulkOutEvent
event request response = record {
  seqnum = request.header.seqnum;
  generation = request.generation;
  response = response;
}

unfoldable pub accepted : BulkOutRequest → RetSubmit
accepted request =
    usbip_ret_submit_success (bulk_in_response_header request.header) 0
      (length request.data_bytes % 2 ^ 32) [] []

unfoldable pub rejected : BulkOutRequest → RetSubmit
rejected request = usbip_ret_submit_fail (bulk_in_response_header request.header) 0

module _ {E : Type 0} where
  -- The state after a write that answered `answer`.
  unfoldable pub written : Option E → BulkOutRequest → BulkOutWorker E → BulkOutWorker E
  written none request w = record w {
    needs_flush = true;
    calls = write_all request.data_bytes none ∷ w.calls;
    events = event request (accepted request) ∷ w.events;
  }
  written (some error) request w = record w {
    failure = some error;
    calls = write_all request.data_bytes (some error) ∷ w.calls;
    events = event request (rejected request) ∷ w.events;
  }

  unfoldable pub on_submit : Option E → BulkOutRequest → BulkOutWorker E → BulkOutWorker E
  on_submit answer request w = elim w.failure [
    | some error ↦ record w { events = event request (rejected request) ∷ w.events }
    | none ↦ written answer request w
  ]

  -- The result of `Flush` and `Shutdown` for a failure and `needs_flush`, and the calls after it.
  unfoldable pub flush_result : Option E → Option E → Bool → Option E
  flush_result answer (some error) needs_flush = some error
  flush_result answer none true = answer
  flush_result answer none false = none

  unfoldable pub flush_calls :
      Option E → Option E → Bool → List (WriterCall E) → List (WriterCall E)
  flush_calls answer (some error) needs_flush calls = calls
  flush_calls answer none true calls = flush_call answer ∷ calls
  flush_calls answer none false calls = calls

  -- `record_failure` where the result is an error; the text of a recorded failure stays the same.
  unfoldable pub record_result : Option E → Option E → Option E
  record_result none failure = failure
  record_result (some error) failure = some error

  unfoldable pub on_flush : Option E → BulkOutWorker E → BulkOutWorker E
  on_flush answer w = record w {
    needs_flush = false;
    failure = record_result (flush_result answer w.failure w.needs_flush) w.failure;
    calls = flush_calls answer w.failure w.needs_flush w.calls;
    replies = flush_result answer w.failure w.needs_flush ∷ w.replies;
  }

  unfoldable pub on_shutdown : Option E → BulkOutWorker E → BulkOutWorker E
  on_shutdown answer w = record w {
    running = false;
    calls = flush_calls answer w.failure w.needs_flush w.calls;
    replies = flush_result answer w.failure w.needs_flush ∷ w.replies;
  }

  -- A command, with what the writer answers if the command calls it.
  unfoldable pub on_command : Option E → BulkOutCommand → BulkOutWorker E → BulkOutWorker E
  on_command answer (submit request) w = on_submit answer request w
  on_command answer flush w = on_flush answer w
  on_command answer shutdown w = on_shutdown answer w
  on_command answer (unlink_command seqnum) w = w

  -- No command came for a while and `needs_flush` is set.
  unfoldable pub on_idle : Option E → BulkOutWorker E → BulkOutWorker E
  on_idle answer w = record w {
    needs_flush = false;
    failure = record_result answer w.failure;
    calls = flush_call answer ∷ w.calls;
  }

  -- The senders of commands are gone.
  unfoldable pub on_closed : Option E → BulkOutWorker E → BulkOutWorker E
  on_closed answer w = record w {
    running = false;
    calls = if w.needs_flush then flush_call answer ∷ w.calls else w.calls;
  }
