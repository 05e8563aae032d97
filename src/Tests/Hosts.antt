-- ===== src/Tests/Hosts.antt =====
-- Transfers to host devices and the simulated interfaces at concrete inputs.
use lusbip.Base.{
  ℕ, ◌^◌, ltb, ◌+◌, ◌≡◌, ◌≢◌, ◌≤◌, refl, true, false, List, [], ◌∷◌, none, some, ◌==◌, arith,
  if◌then◌else◌, if◌then◌else◌,
}
use lusbip.Protocol.Stream.{panic}
use lusbip.Protocol.Setup.{parse}
use lusbip.Protocol.Header.{UsbIpHeaderBasic}
use lusbip.Device.Codes.{UsbEndpoint, output, direction, is_ep0}
use lusbip.Device.Urb.{handle_usbip_cmd_submit}
use lusbip.Host.Calls.{Host, transfer_out, done, failed, stall}
use lusbip.Host.Interface.{Nusb, interface_bulk}
use lusbip.Host.Transfer.{writes, written_last, if_ok, interface_bulk-output}
use lusbip.Host.Panics.{is_control, transfers, submit-reserved_type}
use lusbip.Tests.Control.{control_stick}
use lusbip.Simulated.Keyboard.{new_keyboard, report_of}
use lusbip.Simulated.Typing.{polls, twice, typed, polls-typed}
use lusbip.Simulated.Serial.{serial_class_descriptor}
use lusbip.Simulated.Verify.{end, behind, verify_descriptor, verify_descriptor-AreDescriptors}

-- The first write stalls, and all else goes well.
abbrev stalls_once : Host
stalls_once calls (transfer_out address req timeout) =
    if writes calls == 0 then failed stall else done []
stalls_once calls c = done []

-- Packets of 512 bytes, and buffers of lengths that a `u32` can hold.
abbrev nusb : Nusb
nusb = record { max_packet_size = λ address. 512; takes = λ len. ltb len (2 ^ 32) }

interface_bulk-output_example :
    (writes (interface_bulk stalls_once true nusb output 2 1 (7 ∷ []) []).1 ≤ writes [] + 2)
    × (written_last stalls_once (interface_bulk stalls_once true nusb output 2 1 (7 ∷ []) []).1
        ≡ if_ok (interface_bulk stalls_once true nusb output 2 1 (7 ∷ []) []).0 (7 ∷ []))
    × ((interface_bulk stalls_once true nusb output 2 1 (7 ∷ []) []).0 ≢ panic)
interface_bulk-output_example = interface_bulk-output stalls_once true nusb 2 1 (7 ∷ []) []

abbrev bulk_in_endpoint : UsbEndpoint
bulk_in_endpoint = record { address = 0x81; attributes = 2; max_packet_size = 512; interval = 0 }

-- A setup packet of the reserved type 3.
abbrev reserved : List ℕ
reserved = 0xE1 ∷ 0 ∷ 0 ∷ 0 ∷ 0 ∷ 0 ∷ 2 ∷ 0 ∷ []

abbrev header_in : UsbIpHeaderBasic
header_in = record { command = 1; seqnum = 7; devid = 0; direction = 1; ep = 0 }

submit-reserved_type_example :
    handle_usbip_cmd_submit
      (transfers stalls_once false nusb [])
      false
      control_stick
      header_in
      2
      reserved
      []
    ≡ (panic, none)
unfolding parse
submit-reserved_type_example =
    submit-reserved_type stalls_once false nusb [] control_stick header_in 2 reserved [] refl refl
      (record { address_in = refl; is_control = refl }) refl

abbrev keys_in : UsbEndpoint
keys_in = record { address = 0x81; attributes = 3; max_packet_size = 8; interval = 10 }

-- The key of `a` is typed.
polls-typed_example :
    polls keys_in
      (parse [])
      (twice (report_of 4 ∷ []))
      (record new_keyboard { pending_key_events = report_of 4 ∷ [] })
    ≡ (typed (report_of 4 ∷ []), record new_keyboard { pending_key_events = [] })
unfolding is_ep0 direction new_keyboard
polls-typed_example =
    polls-typed keys_in (parse []) (report_of 4 ∷ []) []
      (record new_keyboard { pending_key_events = report_of 4 ∷ [] }) refl refl refl refl

verify_descriptor-AreDescriptors_example : verify_descriptor 10 serial_class_descriptor ≡ some true
unfolding serial_class_descriptor
verify_descriptor-AreDescriptors_example =
    verify_descriptor-AreDescriptors 10
      (behind 5 (0x24 ∷ 0x00 ∷ 0x10 ∷ 0x01 ∷ []) (0x04 ∷ 0x24 ∷ 0x02 ∷ 0x00 ∷ []) refl
        (behind 4 (0x24 ∷ 0x02 ∷ 0x00 ∷ []) [] refl end))
      (omega arith)
