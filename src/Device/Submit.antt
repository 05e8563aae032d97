-- ===== src/Device/Submit.antt =====
-- Control requests of src/usbip_server/device.rs as a client sees them, through
-- `handle_usbip_cmd_submit` of src/usbip_server/mod.rs.
use lusbip.Base.{
  ℕ, zero, suc, ◌+◌, ◌*◌, ◌/◌, ◌%◌, ◌^◌, ◌≤◌, ◌<◌, ◌≡◌, refl, subst, ◌∙◌, Bool, true, false, ◌&&◌,
  List, [], none, some, ◌==◌, length, bit_and, arith,
}
use lusbip.Protocol.Stream.{Outcome, ok, err, panic, IsU16}
use lusbip.Protocol.Setup.{SetupPacket, parse}
use lusbip.Protocol.Header.{UsbIpHeaderBasic, usbip_ret_submit_code}
use lusbip.Protocol.Reply.{RetSubmit, usbip_ret_submit_success, response_header}
use lusbip.Device.Codes.{UsbEndpoint, UsbDevice, input, direction, attributes_of, control}
use lusbip.Device.Endpoints.{find_ep}
use lusbip.Device.Standard.{get_descriptor}
use lusbip.Device.Answers.{AtMost, FitsDescriptors, get_descriptor-AtMost}
use lusbip.Device.Urb.{
  Transfers, real_ep, urb_reply, handle_urb, handle_urb_by, control_in, forwarded, by_recipient,
  should_forward_control_to_device, handles_mass_storage_get_max_lun, handle_usbip_cmd_submit,
  get_descriptor_request,
}

-- The endpoint that `UsbDevice::new` gives for control requests to the host.
pub record IsControlIn (ep : UsbEndpoint) : Type 0 where
  pub address_in : ep.address ≡ 0x80
  pub is_control : ep.attributes ≡ 0

real_ep-in :
    (header : UsbIpHeaderBasic) → header.direction ≡ 1 → header.ep ≡ 0 → real_ep header ≡ 0x80
unfolding real_ep
real_ep-in header dir zero_ep = rw (dir, zero_ep) refl

pub direction-in : (ep : UsbEndpoint) → IsControlIn ep → direction ep ≡ input
unfolding direction
direction-in ep c = rw c.address_in refl

pub attributes-control :
    (ep : UsbEndpoint) → IsControlIn ep → attributes_of ep.attributes ≡ some control
unfolding attributes_of
attributes-control ep c = rw c.is_control refl

find_ep-in :
    {D I : Type 0} (d : UsbDevice D I)
    → IsControlIn d.ep0_in
    → find_ep 0x80 d ≡ some (d.ep0_in, none)
unfolding find_ep
find_ep-in d c =
    let e : (0x80 == d.ep0_in.address) ≡ true = ground (arith, c.address_in) in rw e refl

pub third_false : (a b c e : Bool) → c ≡ false → (a && b && c && e) ≡ false
third_false a b c e h = ground arith

fourth_false : (a b c : Bool) → (a && b && c && false) ≡ false
fourth_false a b c = ground arith

AtMost-returns :
    (n : ℕ) (o : Outcome (List ℕ))
    → AtMost n o
    → (bytes : List ℕ) × (o ≡ ok bytes) × (length bytes ≤ n)
AtMost-returns n (ok bytes) h = (bytes, refl, h)
AtMost-returns n (err e) h = absurd h
AtMost-returns n panic h = absurd h

eighth : (q : ℕ) → q < 8 → (bit_and (32 * q + 2) 0x1f ≡ 2) × (bit_and (32 * q + 2) 0xF ≡ 2)
eighth zero h = (refl, refl)
eighth (suc zero) h = (refl, refl)
eighth (suc (suc zero)) h = (refl, refl)
eighth (suc (suc (suc zero))) h = (refl, refl)
eighth (suc (suc (suc (suc zero)))) h = (refl, refl)
eighth (suc (suc (suc (suc (suc zero))))) h = (refl, refl)
eighth (suc (suc (suc (suc (suc (suc zero)))))) h = (refl, refl)
eighth (suc (suc (suc (suc (suc (suc (suc zero))))))) h = (refl, refl)
eighth (suc (suc (suc (suc (suc (suc (suc (suc q)))))))) h = absurd (omega arith)

-- The recipient of a request is the endpoint, by the masks that the code uses.
endpoint_type :
    (kind : ℕ) → kind < 256 → kind % 32 ≡ 2 → (bit_and kind 0x1f ≡ 2) × (bit_and kind 0xF ≡ 2)
endpoint_type kind small two =
    let e : 32 * (kind / 32) + 2 ≡ kind = omega (arith, two) in
    subst (λ k. (bit_and k 0x1f ≡ 2) × (bit_and k 0xF ≡ 2)) e
      (eighth (kind / 32) (omega (arith, small)))

module _ {D I : Type 0} (host : Transfers D I) (debug : Bool) (d : UsbDevice D I) where
  handle_urb-in :
      (size : ℕ) (sp : SetupPacket) (out_data : List ℕ)
      → IsControlIn d.ep0_in
      → handle_urb host debug d d.ep0_in none size sp out_data
        ≡ (control_in host debug d d.ep0_in size sp out_data, none)
  unfolding handle_urb handle_urb_by
  handle_urb-in size sp out_data c =
      rw (attributes-control d.ep0_in c, direction-in d.ep0_in c) refl

  -- A control request to the host goes to the endpoint of the device for them.
  pub submit-control_in :
      (header : UsbIpHeaderBasic) (size : ℕ) (setup out_data : List ℕ)
      → header.direction ≡ 1
      → header.ep ≡ 0
      → IsControlIn d.ep0_in
      → handle_usbip_cmd_submit host debug d header size setup out_data
        ≡ urb_reply
            (response_header usbip_ret_submit_code header)
            input
            size
            (control_in host debug d d.ep0_in size (parse setup) out_data, none)
  unfolding handle_usbip_cmd_submit
  submit-control_in header size setup out_data dir zero_ep c =
      rw (real_ep-in header dir zero_ep, find_ep-in d c, handle_usbip_cmd_submit)
        (rw (direction-in d.ep0_in c, handle_urb-in size (parse setup) out_data c) refl)

  control_in-endpoint :
      (size : ℕ) (sp : SetupPacket) (out_data : List ℕ)
      → sp.request_type < 256
      → sp.request_type % 32 ≡ 2
      → control_in host debug d d.ep0_in size sp out_data ≡ panic
  unfolding control_in forwarded by_recipient should_forward_control_to_device
      handles_mass_storage_get_max_lun
  control_in-endpoint size sp out_data small kind =
      let (low, recipient) = endpoint_type sp.request_type small kind in
      let a : (sp.request_type == 0x80 && sp.request == get_descriptor_request) ≡ false =
        ground (arith, kind) in
      let max_lun : (sp.request_type == 0xA1) ≡ false = ground (arith, kind) in
      let b : handles_mass_storage_get_max_lun d sp ≡ false = rw max_lun refl in
      let f : should_forward_control_to_device d sp ≡ false = rw low (
        fourth_false (d.vendor_id == 0x10c4) (d.product_id == 0xea60)
          (bit_and sp.request_type 0x60 == 0x40)) in
      rw (a, b, f, recipient) refl

  -- A request for a descriptor of a device whose descriptors fit, sent to its control endpoint, is
  -- answered with success in either build, for its own sequence number, with no more bytes than the
  -- setup packet asked for and with their number as the actual length.
  pub submit-get_descriptor :
      (header : UsbIpHeaderBasic) (size : ℕ) (setup out_data : List ℕ)
      → header.direction ≡ 1
      → header.ep ≡ 0
      → IsControlIn d.ep0_in
      → (parse setup).request_type ≡ 0x80
      → (parse setup).request ≡ get_descriptor_request
      → IsU16 (parse setup).length
      → FitsDescriptors d
      → (r : RetSubmit) × (handle_usbip_cmd_submit host debug d header size setup out_data
          ≡ (ok r, none))
        × (r.header.seqnum ≡ header.seqnum)
        × (r.status ≡ 0)
        × (r.actual_length ≡ length r.transfer_buffer)
        × (length r.transfer_buffer ≤ (parse setup).length)
  unfolding control_in urb_reply usbip_ret_submit_success response_header
  submit-get_descriptor header size setup out_data dir zero_ep c kind request word fits =
      let (bytes, e, le) =
        AtMost-returns (parse setup).length (get_descriptor debug d (parse setup))
          (get_descriptor-AtMost debug d (parse setup) fits) in
      let asks : ((parse setup).request_type == 0x80
            && (parse setup).request == get_descriptor_request)
          ≡ true =
        ground (arith, kind, request) in
      let answered : control_in host debug d d.ep0_in size (parse setup) out_data ≡ ok bytes =
        rw asks e in
      let small : length bytes % 2 ^ 32 ≡ length bytes = omega (arith, le, word) in
      (
        usbip_ret_submit_success (response_header usbip_ret_submit_code header) 0
            (length bytes % 2 ^ 32) bytes [],
        submit-control_in header size setup out_data dir zero_ep c ∙ rw answered refl,
        refl,
        refl,
        small,
        le,
      )

  -- A control request to the host whose recipient is an endpoint, of whatever type and direction
  -- bit (such as GET_STATUS of an endpoint), panics, whatever the device is and in either build.
  pub submit-endpoint_request :
      (header : UsbIpHeaderBasic) (size : ℕ) (setup out_data : List ℕ)
      → header.direction ≡ 1
      → header.ep ≡ 0
      → IsControlIn d.ep0_in
      → (parse setup).request_type < 256
      → (parse setup).request_type % 32 ≡ 2
      → handle_usbip_cmd_submit host debug d header size setup out_data ≡ (panic, none)
  unfolding urb_reply
  submit-endpoint_request header size setup out_data dir zero_ep c small kind =
      submit-control_in header size setup out_data dir zero_ep c
      ∙ rw (control_in-endpoint size (parse setup) out_data small kind) refl
