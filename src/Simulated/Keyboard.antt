-- ===== src/Simulated/Keyboard.antt =====
-- The keyboard of src/usbip_server/hid.rs.
use lusbip.Base.{
  ℕ, ◌+◌, ◌-◌, ◌/◌, ◌%◌, ◌^◌, ◌&&◌, ◌||◌, List, [], ◌∷◌, Option, none, some, ◌==◌, leb,
  if◌then◌else◌, length, replicate,
}
use lusbip.Protocol.Stream.{Outcome, ok, panic}
use lusbip.Protocol.Setup.{SetupPacket}
use lusbip.Device.Codes.{Direction, input, output, direction, UsbEndpoint, is_ep0}

pub data UsbHidKeyboardHandlerState : Type 0 where
  idle key_down : UsbHidKeyboardHandlerState

pub record UsbHidKeyboardReport : Type 0 where
  pub modifier : ℕ
  pub keys : List ℕ

pub record UsbHidKeyboardHandler : Type 0 where
  pub report_descriptor : List ℕ
  pub pending_key_events : List UsbHidKeyboardReport
  pub state : UsbHidKeyboardHandlerState

-- The code of a key; `none` is a character that is not recognised.
unfoldable pub key_of : ℕ → Option ℕ
key_of ascii =
    if leb 97 ascii && leb ascii 122
    then some (ascii - 97 + 4)
    else if leb 49 ascii && leb ascii 57
    then some (ascii - 49 + 30)
    else if ascii == 48
    then some 39
    else if ascii == 13 || ascii == 10
    then some 40
    else none

unfoldable pub report_of : ℕ → UsbHidKeyboardReport
report_of key = record { modifier = 0; keys = key ∷ 0 ∷ 0 ∷ 0 ∷ 0 ∷ 0 ∷ [] }

unfoldable pub from_ascii : ℕ → Outcome UsbHidKeyboardReport
from_ascii ascii = elim (key_of ascii) [ none ↦ panic | some key ↦ ok (report_of key) ]

unfoldable pub new_keyboard : UsbHidKeyboardHandler
new_keyboard = record {
  report_descriptor =
      0x05 ∷ 0x01 ∷ 0x09 ∷ 0x06 ∷ 0xA1 ∷ 0x01 ∷ 0x05 ∷ 0x07 ∷ 0x19 ∷ 0xE0 ∷ 0x29 ∷ 0xE7 ∷ 0x15
      ∷ 0x00 ∷ 0x25 ∷ 0x01 ∷ 0x75 ∷ 0x01 ∷ 0x95 ∷ 0x08 ∷ 0x81 ∷ 0x02 ∷ 0x95 ∷ 0x01 ∷ 0x75 ∷ 0x08
      ∷ 0x81 ∷ 0x01 ∷ 0x95 ∷ 0x06 ∷ 0x75 ∷ 0x08 ∷ 0x15 ∷ 0x00 ∷ 0x25 ∷ 0x65 ∷ 0x05 ∷ 0x07 ∷ 0x19
      ∷ 0x00 ∷ 0x29 ∷ 0x65 ∷ 0x81 ∷ 0x00 ∷ 0xC0 ∷ [];
  pending_key_events = [];
  state = idle;
}

-- A control transfer: GET_DESCRIPTOR of the report, and SET_IDLE.
unfoldable pub keyboard_control : SetupPacket → UsbHidKeyboardHandler → Outcome (List ℕ)
keyboard_control setup k =
    if setup.request_type == 0x81 && setup.request == 0x06
    then if setup.value / 2 ^ 8 == 0x22 then ok k.report_descriptor else panic
    else if setup.request_type == 0x21 && setup.request == 0x0A
    then ok []
    else panic

unfoldable pub press_next :
    List UsbHidKeyboardReport → UsbHidKeyboardHandler → Outcome (List ℕ) × UsbHidKeyboardHandler
press_next [] k = (ok [], k)
press_next (report ∷ rest) k = (
  ok (report.modifier ∷ 0 ∷ report.keys),
  record k { pending_key_events = rest; state = key_down },
)

unfoldable pub interrupt_in :
    UsbHidKeyboardHandlerState → UsbHidKeyboardHandler → Outcome (List ℕ) × UsbHidKeyboardHandler
interrupt_in idle k = press_next k.pending_key_events k
interrupt_in key_down k = (ok (replicate 6 0), record k { state = idle })

unfoldable pub interrupt_transfer :
    Direction → UsbHidKeyboardHandler → Outcome (List ℕ) × UsbHidKeyboardHandler
interrupt_transfer input k = interrupt_in k.state k
interrupt_transfer output k = (ok [], k)

unfoldable pub keyboard_urb :
    UsbEndpoint → SetupPacket → UsbHidKeyboardHandler → Outcome (List ℕ) × UsbHidKeyboardHandler
keyboard_urb ep setup k =
    if is_ep0 ep then (keyboard_control setup k, k) else interrupt_transfer (direction ep) k

unfoldable pub keyboard_class_descriptor : UsbHidKeyboardHandler → List ℕ
keyboard_class_descriptor k =
    0x09
    ∷ 0x21
    ∷ 0x11
    ∷ 0x01
    ∷ 0x00
    ∷ 0x01
    ∷ 0x22
    ∷ (length k.report_descriptor % 256)
    ∷ (length k.report_descriptor / 2 ^ 8 % 256)
    ∷ []
