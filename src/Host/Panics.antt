-- ===== src/Host/Panics.antt =====
-- When the transfers of src/usbip_server/host.rs panic, and that a client can make them do so.
use lusbip.Base.{
  ℕ, ◌+◌, ◌*◌, ◌-◌, ◌/◌, ◌^◌, ◌!=◌, if◌then◌else◌, ◌≡◌, refl, ◌∙◌, Bool, true, false, not, ◌&&◌,
  ◌||◌, List, Option, none, some, ◌==◌, get_elem?, bit_and, arith, Option-cases, inl, inr,
}
use lusbip.Protocol.Stream.{Outcome, ok, err, panic}
use lusbip.Protocol.Setup.{SetupPacket, parse}
use lusbip.Protocol.Header.{UsbIpHeaderBasic}
use lusbip.Device.Codes.{
  Direction, input, output, direction, UsbDevice, EndpointAttributes, control, isochronous, bulk,
  interrupt,
}
use lusbip.Device.Urb.{
  Transfers, control_in, forwarded, by_recipient, to_interface, should_forward_control_to_device,
  handles_mass_storage_get_max_lun, handle_usbip_cmd_submit, urb_reply, get_descriptor_request,
}
use lusbip.Device.Submit.{
  IsControlIn, submit-control_in, attributes-control, direction-in, third_false,
}
use lusbip.Host.Calls.{Host, Call, Answer, done, failed, control_type_of, recipient_of, control_of}
use lusbip.Host.Interface.{Nusb, interface_control, interface_urb_by, handle_urb_for_interface}
use lusbip.Host.Handlers.{handle_urb_for_device}

unfoldable pub is_none {ℓ} : {A : Type ℓ} → Option A → Bool
is_none none = true
is_none (some a) = false

-- A type or a recipient of a control request that has no meaning.
unfoldable pub is_reserved : SetupPacket → Bool
unfolding is_none
is_reserved setup =
    is_none (control_type_of setup.request_type) || is_none (recipient_of setup.request_type)

unfoldable pub is_panic : Outcome (List ℕ) → Bool
is_panic (ok bytes) = false
is_panic (err e) = false
is_panic panic = true

unfoldable pub is_done : Answer → Bool
is_done (done bytes) = true
is_done (failed e) = false

unfoldable pub is_control : Option EndpointAttributes → Bool
is_control (some control) = true
is_control (some isochronous) = false
is_control (some bulk) = false
is_control (some interrupt) = false
is_control none = false

unfoldable pub is_bulk_in : Option EndpointAttributes → Direction → Bool
is_bulk_in (some bulk) input = true
is_bulk_in (some bulk) output = false
is_bulk_in (some control) dir = false
is_bulk_in (some isochronous) dir = false
is_bulk_in (some interrupt) dir = false
is_bulk_in none dir = false

-- A bulk read has a buffer: its length can be computed, by an endpoint with packets and not of no
-- bytes in a debug build, and nusb takes that length. Of no bytes, a release build asks for as many
-- whole packets as 2 ^ 32 bytes need.
unfoldable pub has_buffer : Nusb → Bool → ℕ → ℕ → Bool
has_buffer nusb debug size address =
    let m = nusb.max_packet_size address in
    let bytes = if size == 0 then 2 ^ 32 else size in
    not (debug && size == 0) && m != 0 && nusb.takes (((bytes - 1) / m + 1) * m)

-- The transfers of a host whose library answers as `host` does, whatever came before.
unfoldable pub transfers : {D I : Type 0} → Host → Bool → Nusb → List Call → Transfers D I
transfers host debug nusb calls = record {
  for_device = λ device intf size setup req.
      (handle_urb_for_device host (not (is_none intf)) setup req calls).0;
  for_interface = λ intf ep size setup req.
      (handle_urb_for_interface host debug nusb ep size setup req calls).0;
}

module _ {D I : Type 0} (host : Host) (debug : Bool) (nusb : Nusb) (calls : List Call)
    (d : UsbDevice D I) where
  for_interface-reserved :
      (size : ℕ) (sp : SetupPacket) (out_data : List ℕ)
      → IsControlIn d.ep0_in
      → sp.request_type ≡ 0xE1
      → (handle_urb_for_interface host debug nusb d.ep0_in size sp out_data calls).0 ≡ panic
  unfolding handle_urb_for_interface interface_urb_by interface_control control_of control_type_of
  for_interface-reserved size sp out_data c kind =
      rw (attributes-control d.ep0_in c, direction-in d.ep0_in c, kind) refl

  control_in-reserved :
      (size : ℕ) (sp : SetupPacket) (out_data : List ℕ)
      → IsControlIn d.ep0_in
      → sp.request_type ≡ 0xE1
      → control_in (transfers host debug nusb calls) debug d d.ep0_in size sp out_data ≡ panic
  unfolding control_in forwarded by_recipient should_forward_control_to_device to_interface
      handles_mass_storage_get_max_lun transfers
  control_in-reserved size sp out_data c kind =
      let a : (sp.request_type == 0x80 && sp.request == get_descriptor_request) ≡ false =
        ground (arith, kind) in
      let b : handles_mass_storage_get_max_lun d sp ≡ false = rw kind refl in
      let f : should_forward_control_to_device d sp ≡ false =
        third_false (d.vendor_id == 0x10c4) (d.product_id == 0xea60)
          (bit_and sp.request_type 0x60 == 0x40) (bit_and sp.request_type 0x1f == 1)
          (rw kind refl) in
      let r : bit_and sp.request_type 0xF ≡ 1 = rw kind refl in
      rw (a, b, f, r)
        (elim (Option-cases (get_elem? d.interfaces (bit_and sp.index 0xFF))) [
          | inl e ↦ rw (e, to_interface) refl
          | inr (intf, e) ↦ rw (e, to_interface) (for_interface-reserved size sp out_data c kind)
        ])

  -- A control request to the host of the reserved type 3 for an interface (`bmRequestType` 0xE1) panics,
  -- whatever the device and its answers are and in either build.
  pub submit-reserved_type :
      (header : UsbIpHeaderBasic) (size : ℕ) (setup out_data : List ℕ)
      → header.direction ≡ 1
      → header.ep ≡ 0
      → IsControlIn d.ep0_in
      → (parse setup).request_type ≡ 0xE1
      → handle_usbip_cmd_submit (transfers host debug nusb calls) debug d header size setup out_data
        ≡ (panic, none)
  unfolding urb_reply
  submit-reserved_type header size setup out_data dir zero_ep c kind =
      submit-control_in (transfers host debug nusb calls) debug d header size setup out_data dir
        zero_ep c
      ∙ rw (control_in-reserved size (parse setup) out_data c kind) refl
