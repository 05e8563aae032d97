-- ===== src/Simulated/Typing.antt =====
-- What a host reads from the keyboard of src/usbip_server/hid.rs.
use lusbip.Base.{ℕ, zero, suc, ◌≡◌, refl, false, List, [], ◌∷◌, ◌++◌, replicate, arith}
use lusbip.Protocol.Stream.{Outcome, ok}
use lusbip.Protocol.Setup.{SetupPacket}
use lusbip.Device.Codes.{input, direction, UsbEndpoint, is_ep0}
use lusbip.Simulated.Keyboard.{
  idle, key_down, UsbHidKeyboardReport, UsbHidKeyboardHandler, press_next, interrupt_in,
  interrupt_transfer, keyboard_urb,
}

-- The answers of a number of polls of an endpoint, and the keyboard after them.
unfoldable pub polls :
    UsbEndpoint
    → SetupPacket
    → ℕ
    → UsbHidKeyboardHandler
    → List (Outcome (List ℕ)) × UsbHidKeyboardHandler
polls ep setup zero k = ([], k)
polls ep setup (suc n) k =
    let (answer, k') = keyboard_urb ep setup k in
    let (answers, last) = polls ep setup n k' in (answer ∷ answers, last)

-- Two polls for each report.
unfoldable pub twice : List UsbHidKeyboardReport → ℕ
twice [] = 0
twice (report ∷ reports) = suc (suc (twice reports))

-- A report of 8 bytes for a key that goes down, and one of 6 bytes when it goes up.
unfoldable pub typed : List UsbHidKeyboardReport → List (Outcome (List ℕ))
typed [] = []
typed (report ∷ reports) =
    ok (report.modifier ∷ 0 ∷ report.keys) ∷ ok (replicate 6 0) ∷ typed reports

module _ (ep : UsbEndpoint) (setup : SetupPacket) (k : UsbHidKeyboardHandler)
    (data_endpoint : is_ep0 ep ≡ false) (reads : direction ep ≡ input) where
  keyboard_urb-down :
      (report : UsbHidKeyboardReport) (rest : List UsbHidKeyboardReport)
      → k.state ≡ idle
      → k.pending_key_events ≡ report ∷ rest
      → keyboard_urb ep setup k ≡ (
        ok (report.modifier ∷ 0 ∷ report.keys),
        record k { pending_key_events = rest; state = key_down },
      )
  unfolding keyboard_urb interrupt_transfer interrupt_in press_next
  keyboard_urb-down report rest s h = ground arith

  keyboard_urb-up :
      k.state ≡ key_down → keyboard_urb ep setup k ≡ (ok (replicate 6 0), record k { state = idle })
  unfolding keyboard_urb interrupt_transfer interrupt_in
  keyboard_urb-up s = ground arith

-- An idle keyboard answers two polls of an interrupt IN endpoint for each report that it holds: the
-- key goes down, with the report's modifier and keys, and then up, in the order of the reports.
pub polls-typed :
    (ep : UsbEndpoint) (setup : SetupPacket) (reports rest : List UsbHidKeyboardReport)
    (k : UsbHidKeyboardHandler)
    → is_ep0 ep ≡ false
    → direction ep ≡ input
    → k.state ≡ idle
    → k.pending_key_events ≡ reports ++ rest
    → polls ep setup (twice reports) k ≡ (typed reports, record k { pending_key_events = rest })
unfolding polls twice typed
polls-typed ep setup [] rest k e d s h = ground arith
polls-typed ep setup (report ∷ reports) rest k e d s h =
    let down : UsbHidKeyboardHandler = record k {
      pending_key_events = reports ++ rest;
      state = key_down;
    } in
    let up : UsbHidKeyboardHandler = record k {
      pending_key_events = reports ++ rest;
      state = idle;
    } in
    ground (
      arith,
      keyboard_urb-down ep setup k e d report (reports ++ rest) s h,
      keyboard_urb-up ep setup down e d refl,
      polls-typed ep setup reports rest up e d refl refl,
    )
