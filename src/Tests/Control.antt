-- ===== src/Tests/Control.antt =====
-- Control requests of src/usbip_server/device.rs at a concrete device. Handles are numbers.
use lusbip.Base.{ℕ, ◌≡◌, ◌≤◌, refl, true, List, [], ◌∷◌, none, lookup, length, arith}
use lusbip.Protocol.Stream.{ok, panic}
use lusbip.Protocol.Setup.{parse}
use lusbip.Protocol.Header.{UsbIpHeaderBasic}
use lusbip.Protocol.Reply.{RetSubmit}
use lusbip.Device.Codes.{UsbDevice}
use lusbip.Device.Descriptors.{extract_configuration_descriptors}
use lusbip.Device.Standard.{
  configuration_descriptor, configuration_with, interface_descriptors, interface_descriptor,
  endpoint_descriptors, endpoint_descriptor, is_superspeed,
}
use lusbip.Device.Answers.{FitsDescriptors, extract-configuration_descriptor}
use lusbip.Device.Urb.{Transfers, handle_usbip_cmd_submit}
use lusbip.Device.Submit.{IsControlIn, submit-get_descriptor, submit-endpoint_request}
use lusbip.Tests.Devices.{stick}

abbrev pub control_stick : UsbDevice ℕ ℕ
control_stick = record (stick (49 ∷ [])) {
  ep0_in = record { address = 0x80; attributes = 0; max_packet_size = 64; interval = 0 };
}

abbrev pub no_transfers : Transfers ℕ ℕ
no_transfers = record {
  for_device = λ d i size sp out_data. ok [];
  for_interface = λ i ep size sp out_data. ok [];
}

abbrev header : UsbIpHeaderBasic
header = record { command = 1; seqnum = 7; devid = 0x10002; direction = 1; ep = 0 }

-- GET_DESCRIPTOR of the configuration, and GET_STATUS of endpoint 0x81.
abbrev get_configuration : List ℕ
get_configuration = 0x80 ∷ 6 ∷ 0 ∷ 2 ∷ 0 ∷ 0 ∷ 255 ∷ 0 ∷ []

abbrev get_status : List ℕ
get_status = 0x82 ∷ 0 ∷ 0 ∷ 0 ∷ 0x81 ∷ 0 ∷ 2 ∷ 0 ∷ []

control_stick-FitsDescriptors : FitsDescriptors control_stick
unfolding lookup configuration_descriptor configuration_with interface_descriptors
    interface_descriptor endpoint_descriptors endpoint_descriptor is_superspeed
control_stick-FitsDescriptors = record { strings = λ i s h. absurd (cc h); total = omega arith }

control_stick-IsControlIn : IsControlIn control_stick.ep0_in
control_stick-IsControlIn = record { address_in = refl; is_control = refl }

extract-configuration_descriptor_example :
    extract_configuration_descriptors (configuration_descriptor control_stick)
    ≡ configuration_descriptor control_stick ∷ []
extract-configuration_descriptor_example =
    extract-configuration_descriptor control_stick control_stick-FitsDescriptors.total

submit-get_descriptor_example :
    (r : RetSubmit) × (handle_usbip_cmd_submit no_transfers true control_stick header 255
        get_configuration []
      ≡ (ok r, none))
    × (r.header.seqnum ≡ 7)
    × (r.status ≡ 0)
    × (r.actual_length ≡ length r.transfer_buffer)
    × (length r.transfer_buffer ≤ 255)
unfolding parse
submit-get_descriptor_example =
    submit-get_descriptor no_transfers true control_stick header 255 get_configuration [] refl refl
      control_stick-IsControlIn refl refl (omega arith) control_stick-FitsDescriptors

submit-endpoint_request_example :
    handle_usbip_cmd_submit no_transfers true control_stick header 2 get_status [] ≡ (panic, none)
unfolding parse
submit-endpoint_request_example =
    submit-endpoint_request no_transfers true control_stick header 2 get_status [] refl refl
      control_stick-IsControlIn (omega arith) refl
