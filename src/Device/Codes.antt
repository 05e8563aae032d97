-- ===== src/Device/Codes.antt =====
-- src/usbip_server/consts.rs, with `from_u8` and `from_u16` of the derived `FromPrimitive`, and the
-- records of endpoint.rs, interface.rs and device.rs.
use lusbip.Base.{ℕ, Bool, List, Option, none, some, ◌==◌, if◌then◌else◌, Text, bit_and, ◌/◌, ◌%◌}

pub data EndpointAttributes : Type 0 where
  control isochronous bulk interrupt : EndpointAttributes

abbrev pub attributes_code : EndpointAttributes → ℕ
attributes_code control = 0
attributes_code isochronous = 1
attributes_code bulk = 2
attributes_code interrupt = 3

unfoldable pub attributes_of : ℕ → Option EndpointAttributes
attributes_of n =
    if n == 0
    then some control
    else if n == 1
    then some isochronous
    else if n == 2
    then some bulk
    else if n == 3
    then some interrupt
    else none

pub data Direction : Type 0 where
  input output : Direction

pub record UsbEndpoint : Type 0 where
  pub address : ℕ
  pub attributes : ℕ
  pub max_packet_size : ℕ
  pub interval : ℕ

-- `UsbEndpoint::direction`: the top bit of the address.
unfoldable pub direction : UsbEndpoint → Direction
direction ep = if bit_and ep.address 0x80 == 0x80 then input else output

-- `UsbEndpoint::is_ep0`.
unfoldable pub is_ep0 : UsbEndpoint → Bool
is_ep0 ep = bit_and ep.address 0x7F == 0

pub record UsbInterface (I : Type 0) : Type 0 where
  pub interface_class : ℕ
  pub interface_subclass : ℕ
  pub interface_protocol : ℕ
  pub endpoints : List UsbEndpoint
  pub string_interface : ℕ
  pub class_specific_descriptor : List ℕ
  pub handler : I

pub record Version : Type 0 where
  pub major : ℕ
  pub minor : ℕ
  pub patch : ℕ

-- `From<u16>` of a version in binary-coded decimal.
unfoldable pub version_of : ℕ → Version
version_of value = record { major = value / 256 % 256; minor = value / 16 % 16; patch = value % 16 }

pub record UsbDevice (D I : Type 0) : Type 0 where
  pub path : Text
  pub bus_id : Text
  pub bus_num : ℕ
  pub dev_num : ℕ
  pub speed : ℕ
  pub vendor_id : ℕ
  pub product_id : ℕ
  pub device_bcd : Version
  pub device_class : ℕ
  pub device_subclass : ℕ
  pub device_protocol : ℕ
  pub configuration_value : ℕ
  pub num_configurations : ℕ
  pub interfaces : List (UsbInterface I)
  pub raw_configuration_descriptors : List (List ℕ)
  pub device_handler : Option D
  pub usb_version : Version
  pub attributes : ℕ
  pub max_power : ℕ
  pub ep0_in : UsbEndpoint
  pub ep0_out : UsbEndpoint
  pub string_pool : List (ℕ × Text)
  pub string_configuration : ℕ
  pub string_manufacturer : ℕ
  pub string_product : ℕ
  pub string_serial : ℕ

abbrev pub ep0_max_packet_size : ℕ
ep0_max_packet_size = 64

-- `DescriptorType`, as far as requests and descriptors use it.
pub data DescriptorType : Type 0 where
  device configuration string interface endpoint device_qualifier : DescriptorType
  other_speed_configuration interface_power otg debug interface_association : DescriptorType
  bos device_capability superspeed_usb_endpoint_companion : DescriptorType

abbrev pub descriptor_code : DescriptorType → ℕ
descriptor_code device = 1
descriptor_code configuration = 2
descriptor_code string = 3
descriptor_code interface = 4
descriptor_code endpoint = 5
descriptor_code device_qualifier = 6
descriptor_code other_speed_configuration = 7
descriptor_code interface_power = 8
descriptor_code otg = 9
descriptor_code debug = 0xA
descriptor_code interface_association = 0xB
descriptor_code bos = 0xF
descriptor_code device_capability = 0x10
descriptor_code superspeed_usb_endpoint_companion = 0x30
