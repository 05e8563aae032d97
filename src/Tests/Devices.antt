-- ===== src/Tests/Devices.antt =====
-- The registry of src/usbip_server/mod.rs and the devices of src/usbip_server/device.rs at concrete
-- inputs. Handles of the operating system are numbers.
use lusbip.Base.{
  subst, text_eq_iff, ℕ, ◌≡◌, ◌⊎◌, refl, true, false, not, ◌&&◌, ◌||◌, List, [], ◌∷◌, none, some,
  Text, text_eq, any, find, retain, remove_first, lookup, arith,
}
use lusbip.Device.Codes.{UsbEndpoint, UsbInterface, Version, UsbDevice}
use lusbip.Registry.Defs.{
  UsbIpServer, ok, new_simulated, occupy_take, occupy_put, sync_retain, sync_append,
  unknown_bus_ids, trim_busid, unique_devices_by_bus_id, dedup_from,
}
use lusbip.Registry.Unique.{holds, Distinct}
use lusbip.Registry.Invariant.{IsRegistry}
use lusbip.Registry.Import.{
  import_success, import_fail, is_utf8, owns, give_back, handle_op_req_import,
  handle_op_req_import_lem,
}
use lusbip.Registry.Sessions.{World, import_on, imports, here, next, IsExclusive, Reach-IsExclusive}
use lusbip.Registry.Races.{occupy_gap}
use lusbip.Registry.Ledger.{
  absent, free, used, Call, call_occupy, call_release, call_remove, call_add, call_sync, AreNew,
  perform, occupy_entry, remove_entry, status_of, update, ledger_of, call_all, perform_all,
}
use lusbip.Registry.Devlist.{
  HasRoom, handle_op_req_devlist_with_occupancy, handle_op_req_devlist_with_occupancy_lem,
}
use lusbip.Server.Filter.{
  DeviceInfo, ServerDeviceFilter, is_usb_hub, export_bus_id, is_number, is_bus_id, matches,
  current_infos, sync_from_host_with_filter,
}
use lusbip.Server.Exported.{is_shared, sync_from_host-is_shared}
use lusbip.Registry.Refines.{call_all-perform_all}

abbrev pub endpoint : ℕ → UsbEndpoint
endpoint address = record { address = address; attributes = 2; max_packet_size = 64; interval = 0 }

abbrev pub version : Version
version = record { major = 1; minor = 0; patch = 0 }

abbrev pub bulk_interface : UsbInterface ℕ
bulk_interface = record {
  interface_class = 8;
  interface_subclass = 6;
  interface_protocol = 80;
  endpoints = endpoint 0x81 ∷ endpoint 2 ∷ [];
  string_interface = 0;
  class_specific_descriptor = [];
  handler = 0;
}

abbrev pub stick : Text → UsbDevice ℕ ℕ
stick bus_id = record {
  path = 47 ∷ [];
  bus_id = bus_id;
  bus_num = 1;
  dev_num = 2;
  speed = 3;
  vendor_id = 0x1234;
  product_id = 0x5678;
  device_bcd = version;
  device_class = 0;
  device_subclass = 0;
  device_protocol = 0;
  configuration_value = 1;
  num_configurations = 1;
  interfaces = bulk_interface ∷ [];
  raw_configuration_descriptors = [];
  device_handler = some 0;
  usb_version = version;
  attributes = 0x80;
  max_power = 50;
  ep0_in = endpoint 0x80;
  ep0_out = endpoint 0;
  string_pool = [];
  string_configuration = 0;
  string_manufacturer = 0;
  string_product = 0;
  string_serial = 0;
}

-- The bus ids `1` and `2`.
abbrev pub one : Text
one = 49 ∷ []

abbrev pub two : Text
two = 50 ∷ []

abbrev server : UsbIpServer ℕ ℕ
server = record { available_devices = stick one ∷ []; used_devices = stick two ∷ [] }

server-IsRegistry : IsRegistry server
unfolding any text_eq
server-IsRegistry = record {
  available_once = (refl, tt);
  used_once = (refl, tt);
  apart = λ b. ground arith;
}

-- The bus id `1` as a client sends it, here with three of its zero bytes.
abbrev pub sent_one : List ℕ
sent_one = 49 ∷ 0 ∷ 0 ∷ 0 ∷ []

handle_op_req_import_lem_example :
    ((holds one server.available_devices || owns (some (stick two)) one) ≡ true)
      × ((d : UsbDevice ℕ ℕ) × (t : UsbIpServer ℕ ℕ) × (handle_op_req_import sent_one
              (some (stick two))
              server
            ≡ (ok (import_success d), some d, t))
          × (d.bus_id ≡ one)
          × IsRegistry t
          × (holds two t.used_devices ≡ (
              (holds two server.used_devices && not (owns (some (stick two)) two))
              || text_eq one two)))
    ⊎ ((holds one server.available_devices || owns (some (stick two)) one) ≡ false)
      × (handle_op_req_import sent_one (some (stick two)) server
          ≡ (ok import_fail, none, give_back (some (stick two)) server))
unfolding trim_busid is_utf8
handle_op_req_import_lem_example =
    handle_op_req_import_lem sent_one (some (stick two)) two server server-IsRegistry refl

-- Two connections ask for the same device.
abbrev pub devices : List (UsbDevice ℕ ℕ)
devices = stick one ∷ stick two ∷ []

abbrev pub start : World ℕ ℕ
start = record { server = new_simulated devices; session = λ i. none }

Reach-IsExclusive_example : IsExclusive (import_on 1 sent_one (import_on 0 sent_one start))
unfolding any text_eq
Reach-IsExclusive_example =
    Reach-IsExclusive devices (refl, (refl, tt))
      (next (next here (imports 0 sent_one)) (imports 1 sent_one))

occupy_gap_example :
    let u = occupy_put (stick one) (
      sync_append
        (stick one ∷ [])
        (sync_retain (one ∷ two ∷ []) (record server { available_devices = [] }))) in
    (holds one u.available_devices ≡ true) × (holds one u.used_devices ≡ true) × ¬ (IsRegistry u)
unfolding occupy_take any text_eq unknown_bus_ids sync_retain retain find remove_first
    unique_devices_by_bus_id dedup_from
occupy_gap_example =
    occupy_gap one (one ∷ two ∷ []) server (record server { available_devices = [] }) (stick one)
      (stick one ∷ []) server-IsRegistry refl refl refl

-- The device `1` is imported, cannot be removed then, and is given back; the device `3` is added, and
-- a synchronisation that finds `1` and `4` drops the others and opens `4`.
abbrev calls : List (Call ℕ ℕ)
calls =
    call_occupy one
    ∷ call_remove one
    ∷ call_release (stick one)
    ∷ call_add (stick (51 ∷ []))
    ∷ call_sync (one ∷ (52 ∷ []) ∷ []) (stick (52 ∷ []) ∷ [])
    ∷ []

calls-AreNew : AreNew calls (ledger_of server)
unfolding perform occupy_entry remove_entry ledger_of status_of update any text_eq
calls-AreNew =
    let opened : (b : Text)
        → holds b (stick (52 ∷ []) ∷ []) ≡ true
        → (any (text_eq b) (one ∷ (52 ∷ []) ∷ []) ≡ true)
          × (update (51 ∷ []) free (update one free (update one used (ledger_of server))) b
              ≡ absent) =
      λ b h.
        let four : text_eq (52 ∷ []) b ≡ true = ground arith in
        subst
          (λ c.
            (any (text_eq c) (one ∷ (52 ∷ []) ∷ []) ≡ true)
            × (update (51 ∷ []) free (update one free (update one used (ledger_of server))) c
                ≡ absent))
          ((text_eq_iff (52 ∷ []) b).0 four) (refl, refl) in
    (tt, (tt, (tt, (refl, (((refl, tt), opened), tt)))))

call_all-perform_all_example :
    ((call_all calls server).0 ≡ (perform_all calls (ledger_of server)).0)
    × (ledger_of (call_all calls server).1 ≡ (perform_all calls (ledger_of server)).1)
    × IsRegistry (call_all calls server).1
call_all-perform_all_example = call_all-perform_all calls server server-IsRegistry calls-AreNew

-- The device `2` is in use by the client `9`.
two-HasRoom : HasRoom (stick two)
unfolding lookup
two-HasRoom = record { index = 1; low = omega arith; high = omega arith; is_free = refl }

handle_op_req_devlist_with_occupancy_lem_example :
    (devices : List (UsbDevice ℕ ℕ)) × (handle_op_req_devlist_with_occupancy
        ((two, 57 ∷ []) ∷ [])
        server
      ≡ some devices)
    × Distinct devices
    × ((b : Text)
        → holds b devices ≡ (holds b server.available_devices || holds b server.used_devices))
handle_op_req_devlist_with_occupancy_lem_example =
    handle_op_req_devlist_with_occupancy_lem ((two, 57 ∷ []) ∷ []) server (two-HasRoom, tt)

-- The host has the device `1` and no other; every device is shared.
abbrev pub listed : List DeviceInfo
listed =
    record {
      vendor_id = 0x1234;
      product_id = 0x5678;
      class = 0;
      interface_classes = 8 ∷ [];
      bus_id = [];
      file_name = some one;
      busnum = 1;
      device_address = 2;
      product_string = none;
    }
    ∷ []

abbrev pub all_devices : ServerDeviceFilter
all_devices = record { vid = none; pid = none; bus_id = none }

sync_from_host-is_shared_example : is_shared true all_devices one listed ≡ true
unfolding any text_eq retain sync_from_host_with_filter sync_retain sync_append current_infos
    matches is_usb_hub is_number is_bus_id export_bus_id unique_devices_by_bus_id dedup_from
    unknown_bus_ids
sync_from_host-is_shared_example =
    sync_from_host-is_shared true all_devices (λ new. []) listed server one (λ new h. absurd (cc h))
      server-IsRegistry refl
