-- ===== src/Registry/Defs.antt =====
-- The registry of src/usbip_server/mod.rs. A method runs under the locks that it takes and is one
-- step here; `release_claim` of the operating system's drivers has no effect on the registry.
use lusbip.Base.{
  ℕ, Bool, not, List, [], ◌∷◌, ◌++◌, map, none, some, Text, text_eq, if◌then◌else◌, ◌==◌, any,
  retain, find, remove_first,
}
use lusbip.Device.Codes.{UsbDevice}

-- What a caller is told, for the errors of `std::io::Error` that the methods build.
pub data RegistryError : Type 0 where
  in_use not_found no_available_device invalid_bus_id : RegistryError

pub data Result {ℓ} (A : Type ℓ) : Type ℓ where
  ok : A → Result A
  err : RegistryError → Result A

pub record UsbIpServer (D I : Type 0) : Type 0 where
  pub available_devices : List (UsbDevice D I)
  pub used_devices : List (UsbDevice D I)

module _ {D I : Type 0} where
  -- `|d| d.bus_id == bus_id`.
  abbrev pub has_bus_id : Text → UsbDevice D I → Bool
  has_bus_id bus_id d = text_eq d.bus_id bus_id

  unfoldable pub new_simulated : List (UsbDevice D I) → UsbIpServer D I
  new_simulated devices = record { available_devices = devices; used_devices = [] }

  unfoldable pub add_device : UsbDevice D I → UsbIpServer D I → UsbIpServer D I
  add_device device s = record s { available_devices = s.available_devices ++ device ∷ [] }

  unfoldable pub remove_device : Text → UsbIpServer D I → Result (UsbIpServer D I)
  remove_device bus_id s =
      if any (has_bus_id bus_id) s.available_devices
      then ok
          (record s { available_devices = remove_first (has_bus_id bus_id) s.available_devices })
      else if any (has_bus_id bus_id) s.used_devices
      then err in_use
      else err not_found

  unfoldable pub prepare_device_for_import : UsbDevice D I → UsbDevice D I
  prepare_device_for_import device = device

  -- `if !v.iter().any(|d| d.bus_id == device.bus_id) { v.push(device) }`.
  unfoldable pub push_new : UsbDevice D I → List (UsbDevice D I) → List (UsbDevice D I)
  push_new device v = if any (has_bus_id device.bus_id) v then v else v ++ device ∷ []

  -- The first half of `occupy`, under the lock of the available devices, which it then drops.
  unfoldable pub occupy_take : Text → UsbIpServer D I → Result (UsbDevice D I × UsbIpServer D I)
  occupy_take bus_id s = elim (find (has_bus_id bus_id) s.available_devices) [
    | none ↦ err no_available_device
    | some device ↦ ok (
      device,
      record s { available_devices = remove_first (has_bus_id bus_id) s.available_devices },
    )
  ]

  -- The second half, under the lock of the devices in use.
  unfoldable pub occupy_put : UsbDevice D I → UsbIpServer D I → UsbIpServer D I
  occupy_put device s = record s { used_devices = push_new device s.used_devices }

  -- `occupy` with nothing between the halves.
  unfoldable pub occupy : Text → UsbIpServer D I → Result (UsbDevice D I × UsbIpServer D I)
  occupy bus_id s = elim (occupy_take bus_id s) [
    | err e ↦ err e
    | ok (taken, t) ↦
        let device = prepare_device_for_import taken in ok (device, occupy_put device t)
  ]

  unfoldable pub release : UsbDevice D I → UsbIpServer D I → UsbIpServer D I
  release device s = record {
    available_devices = push_new device s.available_devices;
    used_devices = retain (λ d. not (text_eq d.bus_id device.bus_id)) s.used_devices;
  }

  -- The loop of `cleanup` over the devices in use.
  unfoldable pub reclaim : List (UsbDevice D I) → List (UsbDevice D I) → List (UsbDevice D I)
  reclaim [] ad = ad
  reclaim (d ∷ ud) ad = reclaim ud (push_new d ad)

  -- The devices whose drivers `cleanup` hands back, and the registry after it. On Linux the list of
  -- available devices is emptied too.
  unfoldable pub cleanup : Bool → UsbIpServer D I → List (UsbDevice D I) × UsbIpServer D I
  cleanup linux s =
      let ad = reclaim s.used_devices s.available_devices in
      if linux
      then (ad, record { available_devices = []; used_devices = [] })
      else ([], record { available_devices = ad; used_devices = [] })

  -- `unique_devices_by_bus_id` and `dedup_devices_by_bus_id`: the first device of each bus id.
  unfoldable pub dedup_from : List Text → List (UsbDevice D I) → List (UsbDevice D I)
  dedup_from seen [] = []
  dedup_from seen (d ∷ ds) =
      let fresh = d ∷ dedup_from (d.bus_id ∷ seen) ds in
      let rest = dedup_from seen ds in if any (text_eq d.bus_id) seen then rest else fresh

  unfoldable pub unique_devices_by_bus_id : List (UsbDevice D I) → List (UsbDevice D I)
  unique_devices_by_bus_id devices = dedup_from [] devices

  -- The first half of `sync_from_host_with_filter`, under both locks: devices that are no longer
  -- among the `current` bus ids of the host leave the registry.
  unfoldable pub sync_retain : List Text → UsbIpServer D I → UsbIpServer D I
  sync_retain current s =
      let plugged = λ (d : UsbDevice D I). any (text_eq d.bus_id) current in
      record {
        available_devices = unique_devices_by_bus_id (retain plugged s.available_devices);
        used_devices = unique_devices_by_bus_id (retain plugged s.used_devices);
      }

  -- The current bus ids that the registry does not know: those devices are opened, with no lock.
  unfoldable pub unknown_bus_ids : List Text → UsbIpServer D I → List Text
  unknown_bus_ids current s =
      let known = map (λ (d : UsbDevice D I). d.bus_id) (s.available_devices ++ s.used_devices) in
      retain (λ b. not (any (text_eq b) known)) current

  -- The second half: the opened devices are appended.
  unfoldable pub sync_append : List (UsbDevice D I) → UsbIpServer D I → UsbIpServer D I
  sync_append new_devices s = record s { available_devices = s.available_devices ++ new_devices }

-- The text up to the first zero byte, or all of it.
unfoldable pub trim_busid : List ℕ → Text
trim_busid [] = []
trim_busid (b ∷ bs) = let rest = b ∷ trim_busid bs in if b == 0 then [] else rest
