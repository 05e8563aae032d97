-- ===== src/Connection/Defs.antt =====
-- `handler` of src/usbip_server/mod.rs, one function for each branch of its loop. A write to the
-- socket that fails ends the connection; here every write goes well. Whether a worker takes a
-- command, whether its endpoint opens and whether the barrier before a control transfer passes are
-- arguments.
use lusbip.Base.{
  ℕ, ◌+◌, ◌%◌, ◌^◌, Bool, true, false, not, ◌&&◌, List, [], ◌∷◌, ◌++◌, map, Option, none, some,
  ◌==◌, if◌then◌else◌, contains, add, discard, lookup, insert, remove, retain,
}
use lusbip.Protocol.Stream.{Outcome, ok, err, panic}
use lusbip.Protocol.Header.{UsbIpHeaderBasic, usbip_ret_submit_code}
use lusbip.Protocol.Reply.{
  RetSubmit, RetUnlink, usbip_ret_submit_fail, response_header, handle_usbip_cmd_unlink,
}
use lusbip.Device.Codes.{
  UsbInterface, UsbDevice, Direction, input, output, direction, attributes_code, bulk,
}
use lusbip.Device.Endpoints.{find_ep}
use lusbip.Device.Urb.{Transfers, real_ep, handle_usbip_cmd_submit}
use lusbip.Bulk.Pending.{
  requires_bulk_out_control_barrier, uses_bulk_out_worker, should_write_bulk_out_response,
  should_write_bulk_in_response,
}
use lusbip.Bulk.InWorker.{
  BulkInCommand, BulkInEvent, submit as submit_in, unlink_command as unlink_in,
}
use lusbip.Bulk.OutWorker.{
  BulkOutCommand, BulkOutEvent, submit as submit_out, unlink_command as unlink_out,
}

pub data Reply : Type 0 where
  ret_submit : RetSubmit → Reply
  ret_unlink : RetUnlink → Reply

-- The variables of the handler, with the addresses of the endpoints that have a worker, and what it
-- sent to the workers and wrote to the socket, latest first.
pub record Session (D I : Type 0) : Type 0 where
  pub imported : Option (UsbDevice D I)
  pub in_workers : List ℕ
  pub out_workers : List ℕ
  pub in_seqnums : List (ℕ × ℕ)
  pub out_seqnums : List (ℕ × ℕ)
  pub cancelled : List ℕ
  pub pending_out : List ℕ
  pub generation : ℕ
  pub to_in : List (ℕ × BulkInCommand)
  pub to_out : List (ℕ × BulkOutCommand)
  pub written : List Reply

-- `bulk_out_generation.wrapping_add(1)` on a `u64`.
unfoldable pub next_generation : ℕ → ℕ
next_generation g = (g + 1) % 2 ^ 64

unfoldable pub is_input : Direction → Bool
is_input input = true
is_input output = false

-- The addresses of the bulk endpoints to the host, or of those from it.
unfoldable pub bulk_addresses : {I : Type 0} → (Direction → Bool) → List (UsbInterface I) → List ℕ
bulk_addresses wanted [] = []
bulk_addresses wanted (intf ∷ intfs) =
    map (λ e. e.address)
      (retain (λ e. e.attributes == attributes_code bulk && wanted (direction e)) intf.endpoints)
    ++ bulk_addresses wanted intfs

-- A worker starts for each of the former, and for each of the latter whose endpoint opens.
unfoldable pub start_bulk_in_workers : {D I : Type 0} → UsbDevice D I → List ℕ
start_bulk_in_workers d = bulk_addresses is_input d.interfaces

unfoldable pub start_bulk_out_workers : {D I : Type 0} → (ℕ → Bool) → UsbDevice D I → List ℕ
start_bulk_out_workers opens d = retain opens (bulk_addresses (λ x. not (is_input x)) d.interfaces)

module _ {D I : Type 0} where
  -- A connection that was accepted.
  unfoldable pub connected : Session D I
  connected = record {
    imported = none;
    in_workers = [];
    out_workers = [];
    in_seqnums = [];
    out_seqnums = [];
    cancelled = [];
    pending_out = [];
    generation = 0;
    to_in = [];
    to_out = [];
    written = [];
  }

  -- An import has been answered with the device that the connection has then, if any: the tables
  -- start empty, for the next generation.
  unfoldable pub on_import : (ℕ → Bool) → Option (UsbDevice D I) → Session D I → Session D I
  on_import opens device s = record s {
    imported = device;
    in_workers = elim device [ none ↦ [] | some d ↦ start_bulk_in_workers d ];
    out_workers = elim device [ none ↦ [] | some d ↦ start_bulk_out_workers opens d ];
    in_seqnums = [];
    out_seqnums = [];
    cancelled = [];
    pending_out = [];
    generation = next_generation s.generation;
  }

  unfoldable pub write : Reply → Session D I → Session D I
  write reply s = record s { written = reply ∷ s.written }

  unfoldable pub send_in : UsbIpHeaderBasic → ℕ → Session D I → Session D I
  send_in header size s = record s {
    to_in =
        (real_ep header, submit_in (record { header = header; transfer_buffer_length = size }))
        ∷ s.to_in;
    in_seqnums = insert header.seqnum (real_ep header) s.in_seqnums;
  }

  unfoldable pub send_out : UsbIpHeaderBasic → List ℕ → Session D I → Session D I
  send_out header out_data s = record s {
    to_out =
        (
          real_ep header,
          submit_out (record { header = header; data_bytes = out_data; generation = s.generation }),
        )
        ∷ s.to_out;
    pending_out = add header.seqnum s.pending_out;
    out_seqnums = insert header.seqnum (real_ep header) s.out_seqnums;
  }

  unfoldable pub is_bulk_out : UsbDevice D I → UsbIpHeaderBasic → Bool
  is_bulk_out d header = elim (find_ep (real_ep header) d) [
    | none ↦ false
    | some (e, intf) ↦ uses_bulk_out_worker e.attributes header.direction
  ]

  -- The reply of a transfer that was run at once; a panic ends the connection's task.
  unfoldable pub write_result : Session D I → Outcome RetSubmit → Outcome (Session D I)
  write_result s (ok r) = ok (write (ret_submit r) s)
  write_result s (err e) = ok s
  write_result s panic = panic

  -- A transfer that no worker takes, behind the barrier where it needs one.
  unfoldable pub submit_at_once :
      Transfers D I
      → Bool
      → Bool
      → UsbDevice D I
      → UsbIpHeaderBasic
      → ℕ
      → List ℕ
      → List ℕ
      → Session D I
      → Outcome (Session D I)
  submit_at_once host debug passed d header size setup out_data s =
      if requires_bulk_out_control_barrier (real_ep header) && not passed
      then ok (
          write
            (ret_submit (usbip_ret_submit_fail (response_header usbip_ret_submit_code header) 0)) s)
      else write_result s (handle_usbip_cmd_submit host debug d header size setup out_data).0

  unfoldable pub submit_on :
      Transfers D I
      → Bool
      → Bool
      → Bool
      → UsbDevice D I
      → UsbIpHeaderBasic
      → ℕ
      → List ℕ
      → List ℕ
      → Session D I
      → Outcome (Session D I)
  submit_on host debug taken passed d header size setup out_data s =
      if header.direction == 1 && contains (real_ep header) s.in_workers && taken
      then ok (send_in header size s)
      else if is_bulk_out d header && contains (real_ep header) s.out_workers && taken
      then ok (send_out header out_data s)
      else submit_at_once host debug passed d header size setup out_data s

  -- `UsbIpCmdSubmit`: without a device the request is only logged.
  unfoldable pub on_submit :
      Transfers D I
      → Bool
      → Bool
      → Bool
      → UsbIpHeaderBasic
      → ℕ
      → List ℕ
      → List ℕ
      → Session D I
      → Outcome (Session D I)
  on_submit host debug taken passed header size setup out_data s = elim s.imported [
    | none ↦ ok s
    | some d ↦ submit_on host debug taken passed d header size setup out_data s
  ]

  -- The three ways in which an unlink finds its request: with a worker of either direction, or not.
  unfoldable pub unlink_from_in : ℕ → ℕ → Session D I → Session D I
  unlink_from_in k address s = record s {
    in_seqnums = remove k s.in_seqnums;
    cancelled = add k s.cancelled;
    to_in = if contains address s.in_workers then (address, unlink_in k) ∷ s.to_in else s.to_in;
  }

  unfoldable pub unlink_from_out : ℕ → ℕ → Session D I → Session D I
  unlink_from_out k address s = record s {
    out_seqnums = remove k s.out_seqnums;
    pending_out = discard k s.pending_out;
    to_out =
        if contains address s.out_workers then (address, unlink_out k) ∷ s.to_out else s.to_out;
  }

  unfoldable pub find_unlinked : Option ℕ → Option ℕ → ℕ → Session D I → Bool × Session D I
  find_unlinked (some address) out k s = (true, unlink_from_in k address s)
  find_unlinked none (some address) k s = (contains k s.pending_out, unlink_from_out k address s)
  find_unlinked none none k s = (false, s)

  unfoldable pub write_unlinked : UsbIpHeaderBasic → ℕ → Bool × Session D I → Session D I
  write_unlinked header k (was_pending, s) =
      write (ret_unlink (handle_usbip_cmd_unlink header k was_pending)) s

  -- `UsbIpCmdUnlink`.
  unfoldable pub on_unlink : UsbIpHeaderBasic → ℕ → Session D I → Session D I
  on_unlink header k s =
      write_unlinked header k (find_unlinked (lookup k s.in_seqnums) (lookup k s.out_seqnums) k s)

  unfoldable pub in_event_done : BulkInEvent → Bool × List ℕ → Session D I → Session D I
  in_event_done e (wanted, cancelled) s =
      let t : Session D I = record s {
        in_seqnums = remove e.seqnum s.in_seqnums;
        cancelled = cancelled;
      } in
      if wanted then write (ret_submit e.response) t else t

  -- A worker to the host answers.
  unfoldable pub on_in_event : BulkInEvent → Session D I → Session D I
  on_in_event e s = in_event_done e (should_write_bulk_in_response s.cancelled e.seqnum) s

  -- A worker from the host answers, for the generation that it was given.
  unfoldable pub on_out_event : BulkOutEvent → Session D I → Session D I
  on_out_event e s =
      let t : Session D I = record s {
        out_seqnums = remove e.seqnum s.out_seqnums;
        pending_out = discard e.seqnum s.pending_out;
      } in
      if should_write_bulk_out_response s.generation e.generation
      then (if contains e.seqnum s.pending_out then write (ret_submit e.response) t else t)
      else s
