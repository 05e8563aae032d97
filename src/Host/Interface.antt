-- ===== src/Host/Interface.antt =====
-- `handle_urb_for_interface` of src/usbip_server/host.rs.
use lusbip.Base.{
  ℕ, ◌+◌, ◌*◌, ◌-◌, ◌/◌, ◌%◌, ◌^◌, Bool, ◌&&◌, ◌||◌, List, [], Option, none, some, ◌==◌,
  if◌then◌else◌,
}
use lusbip.Protocol.Setup.{SetupPacket}
use lusbip.Device.Codes.{
  Direction, input, output, direction, UsbEndpoint, EndpointAttributes, control, isochronous, bulk,
  interrupt, attributes_of,
}
use lusbip.Host.Calls.{
  Host, M, ◌>>=◌, ◌>>◌, pure, fails, or_panic, call, ask, Answer, done, failed, TransferError,
  cancelled, stall, bytes_or_none, control_of, claimed_interface, control_in, control_out,
  open_endpoint, read_exact, write_all, flush, transfer_in, transfer_out, clear_halt, second,
  bulk_in_poll_timeout, interrupt_in_poll_timeout,
}

-- What the code relies on of nusb: the packet size of an endpoint by its address, and the lengths in
-- bytes that `Buffer::new` takes; it panics for all others.
pub record Nusb : Type 0 where
  pub max_packet_size : ℕ → ℕ
  pub takes : ℕ → Bool

-- The least number of whole packets for a transfer, in bytes. Without bytes the subtraction on a `u32`
-- panics in a debug build, and goes round in a release build.
unfoldable pub requested_len : Bool → ℕ → ℕ → Option ℕ
requested_len debug transfer_buffer_length max_packet_size =
    if (debug && transfer_buffer_length == 0) || max_packet_size == 0
    then none
    else some
        (((transfer_buffer_length + 2 ^ 32 - 1) % 2 ^ 32 / max_packet_size + 1) * max_packet_size)

unfoldable pub if_taken : Nusb → Option ℕ → Option ℕ
if_taken nusb none = none
if_taken nusb (some len) = if nusb.takes len then some len else none

-- The length of the buffer for a bulk read; without one the code panics.
unfoldable pub buffer_len : Nusb → Bool → ℕ → ℕ → Option ℕ
buffer_len nusb debug size address =
    if_taken nusb (requested_len debug size (nusb.max_packet_size address))

module _ (host : Host) where
  unfoldable pub interface_control : Direction → SetupPacket → List ℕ → M (List ℕ)
  interface_control input setup req = do
    request ← control_of setup
    answer ← call host (control_in claimed_interface request setup.length second)
    pure (bytes_or_none answer)
  interface_control output setup req = do
    request ← control_of setup
    ask host (control_out claimed_interface request req second)
    pure []

  unfoldable pub interface_interrupt : Direction → ℕ → ℕ → List ℕ → M (List ℕ)
  interface_interrupt input address size req = do
    ask host (open_endpoint interrupt input address)
    answer ← call host (read_exact address size interrupt_in_poll_timeout)
    pure (bytes_or_none answer)
  interface_interrupt output address size req = do
    ask host (open_endpoint interrupt output address)
    ask host (write_all address req second)
    ask host (flush address)
    pure []

  -- A read that stalled is tried once more.
  unfoldable pub after_read : ℕ → ℕ → Answer → M (List ℕ)
  after_read address len (done bytes) = pure bytes
  after_read address len (failed cancelled) = pure []
  after_read address len (failed stall) = do
    ask host (clear_halt address)
    ask host (transfer_in address len bulk_in_poll_timeout)
  after_read address len (failed TransferError.other) = fails

  -- A write that failed is tried once more.
  unfoldable pub after_write : ℕ → List ℕ → Answer → M (List ℕ)
  after_write address req (done bytes) = pure []
  after_write address req (failed e) = do
    ask host (clear_halt address)
    ask host (transfer_out address req second)
    pure []

module _ (host : Host) (debug : Bool) (nusb : Nusb) where
  unfoldable pub interface_bulk : Direction → ℕ → ℕ → List ℕ → M (List ℕ)
  interface_bulk input address size req = do
    ask host (open_endpoint bulk input address)
    len ← or_panic (buffer_len nusb debug size address)
    answer ← call host (transfer_in address len bulk_in_poll_timeout)
    after_read host address len answer
  interface_bulk output address size req = do
    ask host (open_endpoint bulk output address)
    answer ← call host (transfer_out address req second)
    after_write host address req answer

  unfoldable pub interface_urb_by :
      Option EndpointAttributes → Direction → ℕ → ℕ → SetupPacket → List ℕ → M (List ℕ)
  interface_urb_by (some control) dir address size setup req = interface_control host dir setup req
  interface_urb_by (some interrupt) dir address size setup req =
      interface_interrupt host dir address size req
  interface_urb_by (some bulk) dir address size setup req = interface_bulk dir address size req
  interface_urb_by (some isochronous) dir address size setup req = pure []
  interface_urb_by none dir address size setup req = pure []

  unfoldable pub handle_urb_for_interface : UsbEndpoint → ℕ → SetupPacket → List ℕ → M (List ℕ)
  handle_urb_for_interface ep size setup req =
      interface_urb_by (attributes_of ep.attributes) (direction ep) ep.address size setup req
