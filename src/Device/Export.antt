-- ===== src/Device/Export.antt =====
-- `to_bytes` and `to_bytes_with_interfaces` of src/usbip_server/device.rs: a device in the replies of
-- a server. Paths and bus ids are lists of bytes.
use lusbip.Base.{
  ℕ, ◌+◌, ◌*◌, ◌%◌, ◌^◌, ◌≡◌, refl, ◌∙◌, Bool, false, not, ◌&&◌, List, [], ◌∷◌, ◌++◌, length,
  resize, length-resize, length-append, if◌then◌else◌, leb, arith,
}
use lusbip.Protocol.Stream.{Outcome, ok, err, panic, u16_to_be_bytes, u32_to_be_bytes}
use lusbip.Device.Codes.{UsbDevice, UsbInterface}

unfoldable pub interface_bytes : {I : Type 0} → List (UsbInterface I) → List ℕ
interface_bytes [] = []
interface_bytes (intf ∷ intfs) =
    intf.interface_class
    ∷ intf.interface_subclass
    ∷ intf.interface_protocol
    ∷ 0
    ∷ interface_bytes intfs

length-interface_bytes :
    {I : Type 0} (intfs : List (UsbInterface I)) → length (interface_bytes intfs) ≡ 4 * length intfs
unfolding interface_bytes
length-interface_bytes [] = omega arith
length-interface_bytes (intf ∷ intfs) = omega (arith, length-interface_bytes intfs)

-- The bytes, where there are bytes.
abbrev pub HasLength : ℕ → Outcome (List ℕ) → Type 0
HasLength n (ok bytes) = length bytes ≡ n
HasLength n (err e) = ⊥
HasLength n panic = ⊥

length_three : (a b c : List ℕ) → length (a ++ b ++ c) ≡ length a + (length b + length c)
length_three a b c = omega (arith, length-append (a ++ b) c, length-append a b)

module _ {D I : Type 0} where
  -- The fields behind the path and the bus id.
  unfoldable pub number_bytes : UsbDevice D I → List ℕ
  number_bytes d =
      u32_to_be_bytes d.bus_num
      ++ u32_to_be_bytes d.dev_num
      ++ u32_to_be_bytes d.speed
      ++ u16_to_be_bytes d.vendor_id
      ++ u16_to_be_bytes d.product_id
      ++ d.device_bcd.major
        ∷ d.device_bcd.minor
        ∷ d.device_class
        ∷ d.device_subclass
        ∷ d.device_protocol
        ∷ d.configuration_value
        ∷ d.num_configurations
        ∷ (length d.interfaces % 2 ^ 8)
        ∷ []

  unfoldable pub device_bytes : UsbDevice D I → List ℕ
  device_bytes d = resize d.path 256 0 ++ resize d.bus_id 32 0 ++ number_bytes d

  -- `to_bytes`, whose two `debug_assert!`s a debug build keeps.
  unfoldable pub to_bytes : Bool → UsbDevice D I → Outcome (List ℕ)
  to_bytes debug d =
      if debug && not (leb (length d.path) 256 && leb (length d.bus_id) 32)
      then panic
      else ok (device_bytes d)

  unfoldable pub with_interfaces : UsbDevice D I → Outcome (List ℕ) → Outcome (List ℕ)
  with_interfaces d (ok bytes) = ok (bytes ++ interface_bytes d.interfaces)
  with_interfaces d (err e) = err e
  with_interfaces d panic = panic

  unfoldable pub to_bytes_with_interfaces : Bool → UsbDevice D I → Outcome (List ℕ)
  to_bytes_with_interfaces debug d = with_interfaces d (to_bytes debug d)

  length-number_bytes : (d : UsbDevice D I) → length (number_bytes d) ≡ 24
  unfolding number_bytes u32_to_be_bytes u16_to_be_bytes
  length-number_bytes d = refl

  length-device_bytes : (d : UsbDevice D I) → length (device_bytes d) ≡ 312
  unfolding device_bytes
  length-device_bytes d =
      length_three (resize d.path 256 0) (resize d.bus_id 32 0) (number_bytes d)
      ∙ omega
          (arith, length-resize d.path 256 0, length-resize d.bus_id 32 0, length-number_bytes d)

  -- In a release build, and in a debug build for a path of at most 256 bytes and a bus id of at most
  -- 32, a device is written with its interfaces as 312 bytes and four for each interface.
  pub to_bytes_with_interfaces_lem :
      (debug : Bool) (d : UsbDevice D I)
      → (debug && not (leb (length d.path) 256 && leb (length d.bus_id) 32)) ≡ false
      → HasLength (312 + 4 * length d.interfaces) (to_bytes_with_interfaces debug d)
  unfolding to_bytes_with_interfaces with_interfaces to_bytes
  to_bytes_with_interfaces_lem debug d h =
      rw (h, with_interfaces)
        (length-append (device_bytes d) (interface_bytes d.interfaces)
          ∙ omega (arith, length-device_bytes d, length-interface_bytes d.interfaces))
