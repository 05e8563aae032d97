-- ===== src/Device/Urb.antt =====
-- `UsbDevice::handle_urb` of src/usbip_server/device.rs and `handle_usbip_cmd_submit` of
-- src/usbip_server/mod.rs. The transfers to real devices of src/usbip_server/host.rs are calls of a
-- library and enter as arguments. Beside its answer a call tells the configuration that it set on
-- the device's handle, if any; whether that went well is only logged.
use lusbip.Base.{
  ℕ, ◌%◌, ◌^◌, Bool, false, ◌&&◌, ◌||◌, List, [], ◌∷◌, Option, none, some, ◌==◌, ◌!=◌,
  if◌then◌else◌, length, get_elem?, bit_or, bit_and,
}
use lusbip.Protocol.Stream.{Outcome, ok, err, panic}
use lusbip.Protocol.Setup.{SetupPacket, parse}
use lusbip.Protocol.Header.{UsbIpHeaderBasic, usbip_ret_submit_code}
use lusbip.Protocol.Reply.{
  RetSubmit, usbip_ret_submit_success, usbip_ret_submit_fail, response_header,
}
use lusbip.Device.Codes.{
  UsbEndpoint, UsbInterface, UsbDevice, Direction, input, output, direction, EndpointAttributes,
  control, isochronous, bulk, interrupt, attributes_of,
}
use lusbip.Device.Endpoints.{find_ep}
use lusbip.Device.Standard.{shorten, is_superspeed, get_descriptor}

-- `handle_urb_for_device` and `handle_urb_for_interface`.
pub record Transfers (D I : Type 0) : Type 0 where
  pub for_device : D → Option I → ℕ → SetupPacket → List ℕ → Outcome (List ℕ)
  pub for_interface : I → UsbEndpoint → ℕ → SetupPacket → List ℕ → Outcome (List ℕ)

abbrev pub get_descriptor_request : ℕ
get_descriptor_request = 6

abbrev pub set_configuration_request : ℕ
set_configuration_request = 9

unfoldable pub is_mass_storage_bulk_only_interface : ℕ → ℕ → ℕ → Bool
is_mass_storage_bulk_only_interface class subclass protocol =
    class == 8 && subclass == 6 && protocol == 0x50

module _ {I : Type 0} where
  unfoldable pub is_mass_storage : Option (UsbInterface I) → Bool
  is_mass_storage none = false
  is_mass_storage (some intf) =
      is_mass_storage_bulk_only_interface intf.interface_class intf.interface_subclass
        intf.interface_protocol

  -- `self.interfaces.first().map(|i| i.handler.clone())`.
  unfoldable pub first_handler : List (UsbInterface I) → Option I
  first_handler [] = none
  first_handler (intf ∷ intfs) = some intf.handler

module _ {D I : Type 0} where
  unfoldable pub should_forward_set_configuration : UsbDevice D I → ℕ → Bool
  should_forward_set_configuration d requested = requested != d.configuration_value

  unfoldable pub handles_mass_storage_get_max_lun : UsbDevice D I → SetupPacket → Bool
  handles_mass_storage_get_max_lun d sp =
      sp.request_type == 0xA1
      && sp.request == 0xFE
      && sp.value == 0
      && sp.length == 1
      && is_mass_storage (get_elem? d.interfaces (bit_and sp.index 0xFF))

  unfoldable pub handles_superspeed_virtual_request : UsbDevice D I → SetupPacket → Bool
  handles_superspeed_virtual_request d sp =
      is_superspeed d && sp.request_type == 0 && (sp.request == 0x30 || sp.request == 0x31)

  unfoldable pub should_forward_control_to_device : UsbDevice D I → SetupPacket → Bool
  should_forward_control_to_device d sp =
      d.vendor_id == 0x10c4
      && d.product_id == 0xea60
      && bit_and sp.request_type 0x60 == 0x40
      && bit_and sp.request_type 0x1f == 1

module _ {D I : Type 0} (host : Transfers D I) (debug : Bool) (d : UsbDevice D I)
    (ep : UsbEndpoint) where
  -- A control request to the interface that the index names; there is none past the last one.
  unfoldable pub to_interface : ℕ → SetupPacket → List ℕ → Outcome (List ℕ)
  to_interface size sp out_data = elim (get_elem? d.interfaces (bit_and sp.index 0xFF)) [
    | none ↦ panic
    | some intf ↦ host.for_interface intf.handler ep size sp out_data
  ]

  -- A control request to the device where it has a handle, and `other` where it has none.
  unfoldable pub to_device : Outcome (List ℕ) → ℕ → SetupPacket → List ℕ → Outcome (List ℕ)
  to_device other size sp out_data = elim d.device_handler [
    | none ↦ other
    | some handler ↦ host.for_device handler (first_handler d.interfaces) size sp out_data
  ]

  -- The branches that both directions have after those of their own. `unimplemented` is for a
  -- request to the device that has no handle.
  unfoldable pub by_recipient : Outcome (List ℕ) → ℕ → SetupPacket → List ℕ → Outcome (List ℕ)
  by_recipient unimplemented size sp out_data =
      if bit_and sp.request_type 0xF == 1
      then to_interface size sp out_data
      else if bit_and sp.request_type 0xF == 0
      then to_device unimplemented size sp out_data
      else panic

  unfoldable pub forwarded : Outcome (List ℕ) → ℕ → SetupPacket → List ℕ → Outcome (List ℕ)
  forwarded unimplemented size sp out_data =
      if should_forward_control_to_device d sp
      then to_device (by_recipient unimplemented size sp out_data) size sp out_data
      else by_recipient unimplemented size sp out_data

  unfoldable pub control_in : ℕ → SetupPacket → List ℕ → Outcome (List ℕ)
  control_in size sp out_data =
      if sp.request_type == 0x80 && sp.request == get_descriptor_request
      then get_descriptor debug d sp
      else if handles_mass_storage_get_max_lun d sp
      then ok (0 ∷ [])
      else forwarded panic size sp out_data

  -- The configuration that SET_CONFIGURATION sets on the device's handle.
  unfoldable pub configures : SetupPacket → Option ℕ
  configures sp = elim d.device_handler [
    | none ↦ none
    | some handler ↦
        if should_forward_set_configuration d (sp.value % 256) then some (sp.value % 256) else none
  ]

  unfoldable pub control_out : ℕ → SetupPacket → List ℕ → Outcome (List ℕ) × Option ℕ
  control_out size sp out_data =
      if sp.request_type == 0 && sp.request == set_configuration_request
      then (ok (shorten sp.length (d.configuration_value ∷ [])), configures sp)
      else if handles_superspeed_virtual_request d sp
      then (ok [], none)
      else (forwarded (ok []) size sp out_data, none)

  -- Every other transfer goes to the interface; `intf.unwrap()` panics without one.
  unfoldable pub to_endpoint : Option (UsbInterface I) → ℕ → SetupPacket → List ℕ → Outcome (List ℕ)
  to_endpoint none size sp out_data = panic
  to_endpoint (some intf) size sp out_data = host.for_interface intf.handler ep size sp out_data

  unfoldable pub handle_urb_by :
      Option EndpointAttributes
      → Direction
      → Option (UsbInterface I)
      → ℕ
      → SetupPacket
      → List ℕ
      → Outcome (List ℕ) × Option ℕ
  handle_urb_by (some control) input intf size sp out_data = (control_in size sp out_data, none)
  handle_urb_by (some control) output intf size sp out_data = control_out size sp out_data
  handle_urb_by (some isochronous) dir intf size sp out_data =
      (to_endpoint intf size sp out_data, none)
  handle_urb_by (some bulk) dir intf size sp out_data = (to_endpoint intf size sp out_data, none)
  handle_urb_by (some interrupt) dir intf size sp out_data =
      (to_endpoint intf size sp out_data, none)
  handle_urb_by none dir intf size sp out_data = (to_endpoint intf size sp out_data, none)

  unfoldable pub handle_urb :
      Option (UsbInterface I) → ℕ → SetupPacket → List ℕ → Outcome (List ℕ) × Option ℕ
  handle_urb intf size sp out_data =
      handle_urb_by (attributes_of ep.attributes) (direction ep) intf size sp out_data

-- The reply to a transfer of `size` bytes at an endpoint of a direction.
unfoldable pub urb_reply :
    UsbIpHeaderBasic → Direction → ℕ → Outcome (List ℕ) × Option ℕ → Outcome RetSubmit × Option ℕ
urb_reply header input size (ok resp, c) =
    (ok (usbip_ret_submit_success header 0 (length resp % 2 ^ 32) resp []), c)
urb_reply header output size (ok resp, c) = (ok (usbip_ret_submit_success header 0 size resp []), c)
urb_reply header input size (err e, c) = (ok (usbip_ret_submit_fail header 0), c)
urb_reply header output size (err e, c) = (ok (usbip_ret_submit_fail header size), c)
urb_reply header dir size (panic, c) = (panic, c)

unfoldable pub real_ep : UsbIpHeaderBasic → ℕ
real_ep header = if header.direction == 0 then header.ep % 256 else bit_or header.ep 0x80 % 256

unfoldable pub handle_usbip_cmd_submit :
    {D I : Type 0}
    → Transfers D I
    → Bool
    → UsbDevice D I
    → UsbIpHeaderBasic
    → ℕ
    → List ℕ
    → List ℕ
    → Outcome RetSubmit × Option ℕ
handle_usbip_cmd_submit host debug d header size setup out_data =
    let reply = response_header usbip_ret_submit_code header in
    elim (find_ep (real_ep header) d) [
      | none ↦ (ok (usbip_ret_submit_fail reply 0), none)
      | some (ep, intf) ↦
          urb_reply reply (direction ep) size
            (handle_urb host debug d ep intf size (parse setup) out_data)
    ]
