-- ===== src/Server/Filter.antt =====
-- Which devices of the host are shared: `ServerDeviceFilter` and the rows of src/server.rs, and
-- `sync_from_host_with_filter` of src/usbip_server/mod.rs. What nusb tells of a device is a record.
use lusbip.Base.{
  ℕ, ◌+◌, ◌/◌, ◌%◌, Bool, true, false, not, ◌&&◌, ◌||◌, List, [], ◌∷◌, ◌++◌, map, Option, none,
  some, Text, text_eq, if◌then◌else◌, ◌==◌, ltb, any, retain,
}
use lusbip.Device.Codes.{UsbDevice}
use lusbip.Registry.Defs.{UsbIpServer, sync_retain, unknown_bus_ids, sync_append}

-- `file_name` is the last part of the path in sysfs, where that is a text.
pub record DeviceInfo : Type 0 where
  pub vendor_id : ℕ
  pub product_id : ℕ
  pub class : ℕ
  pub interface_classes : List ℕ
  pub bus_id : Text
  pub file_name : Option Text
  pub busnum : ℕ
  pub device_address : ℕ
  pub product_string : Option Text

pub record ServerDeviceFilter : Type 0 where
  pub vid : Option ℕ
  pub pid : Option ℕ
  pub bus_id : Option Text

-- A `u8` as a decimal number.
unfoldable pub decimal : ℕ → Text
decimal n =
    if ltb n 10
    then (48 + n) ∷ []
    else if ltb n 100
    then (48 + n / 10) ∷ (48 + n % 10) ∷ []
    else (48 + n / 100) ∷ (48 + n / 10 % 10) ∷ (48 + n % 10) ∷ []

unfoldable pub is_usb_hub : DeviceInfo → Bool
is_usb_hub device = device.class == 0x09 || any (λ c. c == 0x09) device.interface_classes

-- `export_bus_id`, which is `host_export_bus_id`, on Linux and elsewhere.
unfoldable pub export_bus_id : Bool → DeviceInfo → Text
export_bus_id true device = elim device.file_name [
  | some value ↦ value
  | none ↦ decimal device.busnum ++ (45 ∷ decimal device.device_address) ++ 45 ∷ 48 ∷ []
]
export_bus_id false device = device.bus_id

unfoldable pub is_number : Option ℕ → ℕ → Bool
is_number none n = true
is_number (some expected) n = n == expected

unfoldable pub is_bus_id : Bool → Option Text → DeviceInfo → Bool
is_bus_id linux none device = true
is_bus_id linux (some expected) device =
    text_eq (export_bus_id linux device) expected || text_eq device.bus_id expected

unfoldable pub matches : Bool → ServerDeviceFilter → DeviceInfo → Bool
matches linux f device =
    not (is_usb_hub device)
    && is_number f.vid device.vendor_id
    && is_number f.pid device.product_id
    && is_bus_id linux f.bus_id device

unfoldable pub current_infos : Bool → ServerDeviceFilter → List DeviceInfo → List DeviceInfo
current_infos linux f infos = retain (λ i. not (is_usb_hub i) && matches linux f i) infos

module _ {D I : Type 0} where
  -- A synchronisation with nothing between its locks; `opened` is `with_nusb_devices`.
  unfoldable pub sync_from_host_with_filter :
      Bool
      → ServerDeviceFilter
      → (List DeviceInfo → List (UsbDevice D I))
      → List DeviceInfo
      → UsbIpServer D I
      → List Text × UsbIpServer D I
  sync_from_host_with_filter linux f opened infos s =
      let current = current_infos linux f infos in
      let current_bus_ids = map (export_bus_id linux) current in
      let t = sync_retain current_bus_ids s in
      let new_bus_ids = unknown_bus_ids current_bus_ids t in
      let new_infos = retain (λ i. any (text_eq (export_bus_id linux i)) new_bus_ids) current in
      (current_bus_ids, sync_append (opened new_infos) t)
