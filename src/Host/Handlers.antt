-- ===== src/Host/Handlers.antt =====
-- `handle_urb_for_device` of src/usbip_server/host.rs, and the two handlers of the traits.
use lusbip.Base.{ℕ, ◌%◌, Bool, true, false, List, [], Option, none, some, ◌==◌, find, bit_and}
use lusbip.Protocol.Setup.{SetupPacket, parse}
use lusbip.Device.Codes.{
  Direction, input, output, direction, UsbEndpoint, EndpointAttributes, control, isochronous, bulk,
  interrupt, attributes_of,
}
use lusbip.Host.Calls.{
  Host, M, ◌>>=◌, ◌>>◌, pure, fails, call, ask, bytes_or_none, control_of, ControlTransport,
  claimed_interface, device_handle, control_in, control_out, open_endpoint, read_exact, write_all,
  flush, reset_device, list_devices, open_device, set_configuration, second,
}
use lusbip.Host.Interface.{interface_control}

unfoldable pub select_control_transport : Bool → ControlTransport
select_control_transport true = claimed_interface
select_control_transport false = device_handle

unfoldable pub is_out : SetupPacket → Bool
is_out setup = bit_and setup.request_type 0x80 == 0

module _ (host : Host) where
  -- A control request by a transport, out of the host or in.
  unfoldable pub device_control : ControlTransport → Bool → SetupPacket → List ℕ → M (List ℕ)
  device_control transport true setup req = do
    request ← control_of setup
    ask host (control_out transport request req second)
    pure []
  device_control transport false setup req = do
    request ← control_of setup
    answer ← call host (control_in transport request setup.length second)
    pure (bytes_or_none answer)

  -- On systems other than Windows. The transport is chosen by whether there is an interface.
  unfoldable pub handle_urb_for_device : Bool → SetupPacket → List ℕ → M (List ℕ)
  handle_urb_for_device has_interface setup req =
      device_control (select_control_transport has_interface) (is_out setup) setup req

  -- On Windows.
  unfoldable pub handle_urb_for_device_windows : Bool → SetupPacket → List ℕ → M (List ℕ)
  handle_urb_for_device_windows true setup req =
      device_control claimed_interface (is_out setup) setup req
  handle_urb_for_device_windows false setup req = do request ← control_of setup; fails

  -- `NusbUsbHostDeviceHandler::handle_urb`.
  unfoldable pub device_handler_urb : SetupPacket → List ℕ → M (List ℕ)
  device_handler_urb setup req = device_control device_handle (is_out setup) setup req

  unfoldable pub reopen : Option ℕ → M (List ℕ)
  reopen none = fails
  reopen (some found) = do ask host open_device; pure []

  -- The answer of `list_devices` is the vendor of each device listed, and `open_device` opens the
  -- first of the vendor `vid`.
  unfoldable pub reset : ℕ → M (List ℕ)
  reset vid = do
    ask host reset_device
    vendors ← ask host list_devices
    reopen (find (λ v. v == vid) vendors)

  unfoldable pub configure : List ℕ → M (List ℕ)
  configure setup = do ask host (set_configuration ((parse setup).value % 256)); pure []

  -- The branches of `NusbUsbHostInterfaceHandler::handle_urb` for endpoints other than control ones.
  unfoldable pub handler_interrupt : Direction → ℕ → ℕ → List ℕ → M (List ℕ)
  handler_interrupt input address size req = do
    ask host (open_endpoint interrupt input address)
    answer ← call host (read_exact address size second)
    pure (bytes_or_none answer)
  handler_interrupt output address size req = do
    ask host (open_endpoint interrupt output address)
    ask host (write_all address req second)
    ask host (flush address)
    pure []

  unfoldable pub handler_bulk : Direction → ℕ → ℕ → List ℕ → M (List ℕ)
  handler_bulk input address size req = do
    ask host (open_endpoint bulk input address)
    ask host (read_exact address size second)
  handler_bulk output address size req = do
    ask host (open_endpoint bulk output address)
    ask host (write_all address req second)
    ask host (flush address)
    pure []

  unfoldable pub handler_urb_by :
      Option EndpointAttributes → Direction → ℕ → ℕ → SetupPacket → List ℕ → M (List ℕ)
  handler_urb_by (some control) dir address size setup req = interface_control host dir setup req
  handler_urb_by (some interrupt) dir address size setup req =
      handler_interrupt dir address size req
  handler_urb_by (some bulk) dir address size setup req = handler_bulk dir address size req
  handler_urb_by (some isochronous) dir address size setup req = pure []
  handler_urb_by none dir address size setup req = pure []

  unfoldable pub interface_handler_urb : UsbEndpoint → ℕ → SetupPacket → List ℕ → M (List ℕ)
  interface_handler_urb ep size setup req =
      handler_urb_by (attributes_of ep.attributes) (direction ep) ep.address size setup req
