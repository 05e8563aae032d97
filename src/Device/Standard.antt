-- ===== src/Device/Standard.antt =====
-- The standard descriptors of src/usbip_server/device.rs: what `UsbDevice::handle_urb` answers to
-- GET_DESCRIPTOR. Bytes are numbers below 256; words wrap as the casts of the source do.
use lusbip.Base.{
  ℕ, ◌+◌, ◌-◌, ◌*◌, ◌/◌, ◌%◌, ◌^◌, Bool, ◌&&◌, List, [], ◌∷◌, ◌++◌, Option, none, some, Text,
  lookup, ◌==◌, ltb, leb, if◌then◌else◌, length, take, get_elem?, resize, bit_or,
}
use lusbip.Protocol.Stream.{Outcome, ok, err, panic}
use lusbip.Protocol.Setup.{SetupPacket}
use lusbip.Device.Codes.{
  UsbEndpoint, UsbInterface, UsbDevice, Version, attributes_code, interrupt, descriptor_code,
  device, configuration, string, interface, endpoint, device_qualifier, bos, device_capability,
  superspeed_usb_endpoint_companion,
}

-- `bcd_bytes`: the low and the high byte.
unfoldable pub bcd_bytes : Version → ℕ × ℕ
bcd_bytes v = (bit_or (v.minor * 16 % 256) v.patch, v.major)

-- `UsbSpeed::Super as u32` is 5.
abbrev pub speed_super : ℕ
speed_super = 5

-- `if setup_packet.length < desc.len() as u16 { desc.resize(setup_packet.length as usize, 0) }`.
unfoldable pub shorten : ℕ → List ℕ → List ℕ
shorten requested desc =
    if ltb requested (length desc % 2 ^ 16) then resize desc requested 0 else desc

unfoldable pub shorten_ok : ℕ → Outcome (List ℕ) → Outcome (List ℕ)
shorten_ok requested (ok desc) = ok (shorten requested desc)
shorten_ok requested (err e) = err e
shorten_ok requested panic = panic

unfoldable pub superspeed_endpoint_companion_descriptor : UsbEndpoint → List ℕ
superspeed_endpoint_companion_descriptor ep =
    let bytes_per_interval =
      if ep.attributes == attributes_code interrupt then ep.max_packet_size else 0 in
    6
    ∷ descriptor_code superspeed_usb_endpoint_companion
    ∷ 0
    ∷ 0
    ∷ (bytes_per_interval % 256)
    ∷ (bytes_per_interval / 256 % 256)
    ∷ []

-- The descriptor of an endpoint, with its companion on a SuperSpeed device.
unfoldable pub endpoint_descriptor : Bool → UsbEndpoint → List ℕ
endpoint_descriptor superspeed ep =
    7
    ∷ descriptor_code endpoint
    ∷ ep.address
    ∷ ep.attributes
    ∷ (ep.max_packet_size % 256)
    ∷ (ep.max_packet_size / 256 % 256)
    ∷ ep.interval
    ∷ (if superspeed then superspeed_endpoint_companion_descriptor ep else [])

unfoldable pub endpoint_descriptors : Bool → List UsbEndpoint → List ℕ
endpoint_descriptors superspeed [] = []
endpoint_descriptors superspeed (ep ∷ eps) =
    endpoint_descriptor superspeed ep ++ endpoint_descriptors superspeed eps

module _ {I : Type 0} where
  -- The `i`-th interface, its class-specific descriptor and its endpoints.
  unfoldable pub interface_descriptor : Bool → ℕ → UsbInterface I → List ℕ
  interface_descriptor superspeed i intf =
      9
      ∷ descriptor_code interface
      ∷ (i % 256)
      ∷ 0
      ∷ (length intf.endpoints % 256)
      ∷ intf.interface_class
      ∷ intf.interface_subclass
      ∷ intf.interface_protocol
      ∷ intf.string_interface
      ∷ (intf.class_specific_descriptor ++ endpoint_descriptors superspeed intf.endpoints)

  unfoldable pub interface_descriptors : Bool → ℕ → List (UsbInterface I) → List ℕ
  interface_descriptors superspeed i [] = []
  interface_descriptors superspeed i (intf ∷ intfs) =
      interface_descriptor superspeed i intf ++ interface_descriptors superspeed (i + 1) intfs

-- `str::encode_utf16`: a code point beyond 16 bits is a pair of surrogates.
unfoldable pub encode_utf16 : Text → List ℕ
encode_utf16 [] = []
encode_utf16 (c ∷ cs) =
    let rest = encode_utf16 cs in
    if ltb c 0x10000
    then c ∷ rest
    else (0xD800 + (c - 0x10000) / 0x400) ∷ (0xDC00 + c % 0x400) ∷ rest

unfoldable pub unit_bytes : List ℕ → List ℕ
unit_bytes [] = []
unit_bytes (u ∷ us) = (u % 256) ∷ (u / 256 % 256) ∷ unit_bytes us

-- The descriptor of a string. `2 + bytes.len() as u8 * 2` is computed on a `u8`: past 255 a debug
-- build panics and a release build wraps around.
unfoldable pub string_descriptor : Bool → Text → Outcome (List ℕ)
string_descriptor debug s =
    let units = encode_utf16 s in
    let size = 2 + length units % 256 * 2 in
    if debug && ltb 255 size
    then panic
    else ok ((size % 256) ∷ descriptor_code string ∷ unit_bytes units)

module _ {D I : Type 0} where
  unfoldable pub is_superspeed : UsbDevice D I → Bool
  is_superspeed d = leb speed_super d.speed

  unfoldable pub ep0_descriptor_size : UsbDevice D I → ℕ
  ep0_descriptor_size d = if is_superspeed d then 9 else d.ep0_in.max_packet_size % 256

  unfoldable pub device_descriptor : UsbDevice D I → List ℕ
  device_descriptor d =
      0x12
      ∷ descriptor_code device
      ∷ (bcd_bytes d.usb_version).0
      ∷ (bcd_bytes d.usb_version).1
      ∷ d.device_class
      ∷ d.device_subclass
      ∷ d.device_protocol
      ∷ ep0_descriptor_size d
      ∷ (d.vendor_id % 256)
      ∷ (d.vendor_id / 256 % 256)
      ∷ (d.product_id % 256)
      ∷ (d.product_id / 256 % 256)
      ∷ (bcd_bytes d.device_bcd).0
      ∷ (bcd_bytes d.device_bcd).1
      ∷ d.string_manufacturer
      ∷ d.string_product
      ∷ d.string_serial
      ∷ d.num_configurations
      ∷ []

  unfoldable pub qualifier_descriptor : UsbDevice D I → List ℕ
  qualifier_descriptor d =
      0x0A
      ∷ descriptor_code device_qualifier
      ∷ (bcd_bytes d.usb_version).0
      ∷ (bcd_bytes d.usb_version).1
      ∷ d.device_class
      ∷ d.device_subclass
      ∷ d.device_protocol
      ∷ ep0_descriptor_size d
      ∷ d.num_configurations
      ∷ 0
      ∷ []

  -- The two bytes of the total length are those of the 22 bytes there are.
  unfoldable pub bos_descriptor : UsbDevice D I → List ℕ
  bos_descriptor d =
      if is_superspeed d
      then 5
        ∷ descriptor_code bos
        ∷ 22
        ∷ 0
        ∷ 2
        ∷ 7
        ∷ descriptor_code device_capability
        ∷ 2
        ∷ 2
        ∷ 0
        ∷ 0
        ∷ 0
        ∷ 10
        ∷ descriptor_code device_capability
        ∷ 3
        ∷ 0
        ∷ 0x0E
        ∷ 0
        ∷ 1
        ∷ 10
        ∷ 0xFF
        ∷ 7
        ∷ []
      else 5 ∷ descriptor_code bos ∷ 5 ∷ 0 ∷ 0 ∷ []

  -- The configuration descriptor with `total` as its length, and what follows it.
  unfoldable pub configuration_with : UsbDevice D I → ℕ → List ℕ → List ℕ
  configuration_with d total rest =
      9
      ∷ descriptor_code configuration
      ∷ (total % 256)
      ∷ (total / 256 % 256)
      ∷ (length d.interfaces % 256)
      ∷ d.configuration_value
      ∷ d.string_configuration
      ∷ d.attributes
      ∷ d.max_power
      ∷ rest

  unfoldable pub configuration_descriptor : UsbDevice D I → List ℕ
  configuration_descriptor d =
      let rest = interface_descriptors (is_superspeed d) 0 d.interfaces in
      configuration_with d ((9 + length rest) % 2 ^ 16) rest

  -- `raw_configuration_descriptor`.
  unfoldable pub raw_configuration_descriptor : UsbDevice D I → ℕ → ℕ → Option (List ℕ)
  raw_configuration_descriptor d configuration_index requested_length =
      elim (get_elem? d.raw_configuration_descriptors configuration_index) [
        | none ↦ none
        | some descriptor ↦ some (take requested_length descriptor)
      ]

  unfoldable pub configuration_answer : UsbDevice D I → SetupPacket → List ℕ
  configuration_answer d sp = elim (raw_configuration_descriptor d (sp.value % 256) sp.length) [
    | none ↦ shorten sp.length (configuration_descriptor d)
    | some descriptor ↦ descriptor
  ]

  unfoldable pub string_answer : Bool → UsbDevice D I → SetupPacket → Outcome (List ℕ)
  string_answer debug d sp =
      if sp.value % 256 == 0
      then ok (shorten sp.length (4 ∷ descriptor_code string ∷ 9 ∷ 4 ∷ []))
      else elim (lookup (sp.value % 256) d.string_pool) [
        | none ↦ ok []
        | some s ↦ shorten_ok sp.length (string_descriptor debug s)
      ]

  -- The answer to GET_DESCRIPTOR, by the descriptor type in the high byte of the value.
  unfoldable pub get_descriptor : Bool → UsbDevice D I → SetupPacket → Outcome (List ℕ)
  get_descriptor debug d sp =
      let kind = sp.value / 256 in
      if kind == descriptor_code device
      then ok (shorten sp.length (device_descriptor d))
      else if kind == descriptor_code bos
      then ok (shorten sp.length (bos_descriptor d))
      else if kind == descriptor_code configuration
      then ok (configuration_answer d sp)
      else if kind == descriptor_code string
      then string_answer debug d sp
      else if kind == descriptor_code device_qualifier
      then ok (shorten sp.length (qualifier_descriptor d))
      else ok []
