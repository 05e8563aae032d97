-- ===== src/Protocol/Setup.antt =====
-- src/usbip_server/setup.rs, and the requests that usbip_protocol.rs recognises in a setup packet.
use lusbip.Base.{
  ℕ, ◌*◌, ◌/◌, ◌%◌, ◌^◌, ◌≡◌, ◌≢◌, ◌↔◌, Bool, true, ◌&&◌, ◌||◌, List, [], ◌∷◌, ◌==◌, ◌!=◌, get_or,
  bit_or, bit_or-add, arith,
}

pub record SetupPacket : Type 0 where
  pub request_type : ℕ
  pub request : ℕ
  pub value : ℕ
  pub index : ℕ
  pub length : ℕ

-- `((high as u16) << 8) | (low as u16)`.
join_u16 : ℕ → ℕ → ℕ
join_u16 high low = bit_or (high * 2 ^ 8) low

unfoldable pub parse : List ℕ → SetupPacket
unfolding join_u16
parse setup = record {
  request_type = get_or setup 0 0;
  request = get_or setup 1 0;
  value = join_u16 (get_or setup 3 0) (get_or setup 2 0);
  index = join_u16 (get_or setup 5 0) (get_or setup 4 0);
  length = join_u16 (get_or setup 7 0) (get_or setup 6 0);
}

unfoldable pub is_setup : SetupPacket → Bool
is_setup sp =
    sp.request_type != 0
    || (sp.request != 0 || (sp.value != 0 || (sp.index != 0 || sp.length != 0)))

abbrev usb_port_feat_reset : ℕ
usb_port_feat_reset = 0x04

abbrev usb_req_set_feature : ℕ
usb_req_set_feature = 0x03

abbrev usb_rt_port : ℕ
usb_rt_port = bit_or (0x01 * 2 ^ 5) 0x03

abbrev usb_req_clear_feature : ℕ
usb_req_clear_feature = 0x01

abbrev usb_recip_endpoint : ℕ
usb_recip_endpoint = 0x02

abbrev usb_endpoint_halt : ℕ
usb_endpoint_halt = 0

abbrev usb_req_set_interface : ℕ
usb_req_set_interface = 0x0b

abbrev usb_recip_interface : ℕ
usb_recip_interface = 0x01

abbrev usb_req_set_configuration : ℕ
usb_req_set_configuration = 0x09

abbrev usb_recip_device : ℕ
usb_recip_device = 0

unfoldable pub is_reset_device_cmd : List ℕ → Bool
is_reset_device_cmd setup =
    let sp = parse setup in
    sp.request == usb_req_set_feature
    && (sp.request_type == usb_rt_port && sp.value == usb_port_feat_reset)

unfoldable pub is_clear_halt_cmd : List ℕ → Bool
is_clear_halt_cmd setup =
    let sp = parse setup in
    sp.request == usb_req_clear_feature
    && (sp.request_type == usb_recip_endpoint && sp.value == usb_endpoint_halt)

unfoldable pub is_set_interface_cmd : List ℕ → Bool
is_set_interface_cmd setup =
    let sp = parse setup in
    sp.request == usb_req_set_interface && sp.request_type == usb_recip_interface

unfoldable pub is_set_configuration_cmd : SetupPacket → Bool
is_set_configuration_cmd sp =
    sp.request == usb_req_set_configuration && sp.request_type == usb_recip_device

-- The eight bytes of a setup packet, its words with the low byte first.
abbrev pub setup_bytes : SetupPacket → List ℕ
setup_bytes sp =
    sp.request_type
    ∷ sp.request
    ∷ (sp.value % 256)
    ∷ (sp.value / 256)
    ∷ (sp.index % 256)
    ∷ (sp.index / 256)
    ∷ (sp.length % 256)
    ∷ (sp.length / 256)
    ∷ []

join_split : (w : ℕ) → join_u16 (w / 256) (w % 256) ≡ w
unfolding join_u16
join_split w = omega (arith, bit_or-add 8 (w / 256) (w % 256))

-- Parsing the eight bytes of a setup packet gives back its five fields, whatever they are.
pub parse-setup_bytes : (sp : SetupPacket) → parse (setup_bytes sp) ≡ sp
unfolding parse
parse-setup_bytes sp =
    ground (arith, join_split sp.value, join_split sp.index, join_split sp.length)

-- The four requests exclude one another: a packet is at most one of a port reset, a clearing of an
-- endpoint's halt, a choice of an interface and a choice of a configuration.
pub commands_exclusive :
    (setup : List ℕ)
    → ((is_reset_device_cmd setup && is_clear_halt_cmd setup) ≢ true)
      × ((is_reset_device_cmd setup && is_set_interface_cmd setup) ≢ true)
      × ((is_clear_halt_cmd setup && is_set_interface_cmd setup) ≢ true)
      × ((is_set_interface_cmd setup && is_set_configuration_cmd (parse setup)) ≢ true)
      × ((is_clear_halt_cmd setup && is_set_configuration_cmd (parse setup)) ≢ true)
      × ((is_reset_device_cmd setup && is_set_configuration_cmd (parse setup)) ≢ true)
unfolding is_reset_device_cmd is_clear_halt_cmd is_set_interface_cmd is_set_configuration_cmd
commands_exclusive setup = let sp = parse setup in ground arith

-- `is_setup` accepts exactly the packets that differ from the packet of eight zero bytes.
pub is_setup_iff :
    (sp : SetupPacket) → (is_setup sp ≡ true) ↔ (sp ≢ parse (0 ∷ 0 ∷ 0 ∷ 0 ∷ 0 ∷ 0 ∷ 0 ∷ 0 ∷ []))
unfolding is_setup parse
is_setup_iff sp = ground arith
