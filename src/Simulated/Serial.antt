-- ===== src/Simulated/Serial.antt =====
-- The serial port of src/usbip_server/cdc.rs.
use lusbip.Base.{ℕ, Bool, List, [], ◌∷◌, ◌==◌, if◌then◌else◌}
use lusbip.Protocol.Stream.{Outcome, ok}
use lusbip.Device.Codes.{Direction, input, output, direction, UsbEndpoint}

pub record UsbCdcAcmHandler : Type 0 where
  pub tx_buffer : List ℕ

unfoldable pub new_serial : UsbCdcAcmHandler
new_serial = record { tx_buffer = [] }

unfoldable pub serial_endpoints : List UsbEndpoint
serial_endpoints =
    record { address = 0x81; attributes = 3; max_packet_size = 0x08; interval = 10 }
    ∷ record { address = 0x82; attributes = 2; max_packet_size = 512; interval = 0 }
    ∷ record { address = 0x02; attributes = 2; max_packet_size = 512; interval = 0 }
    ∷ []

-- A transfer by whether its endpoint is an interrupt endpoint, and by its direction.
unfoldable pub serial_transfer :
    Bool → Direction → UsbCdcAcmHandler → Outcome (List ℕ) × UsbCdcAcmHandler
serial_transfer is_interrupt output s = (ok [], s)
serial_transfer is_interrupt input s =
    if is_interrupt then (ok [], s) else (ok s.tx_buffer, record s { tx_buffer = [] })

unfoldable pub serial_urb : UsbEndpoint → UsbCdcAcmHandler → Outcome (List ℕ) × UsbCdcAcmHandler
serial_urb ep s = serial_transfer (ep.attributes == 3) (direction ep) s

unfoldable pub serial_class_descriptor : List ℕ
serial_class_descriptor = 0x05 ∷ 0x24 ∷ 0x00 ∷ 0x10 ∷ 0x01 ∷ 0x04 ∷ 0x24 ∷ 0x02 ∷ 0x00 ∷ []
