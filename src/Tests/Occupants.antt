-- ===== src/Tests/Occupants.antt =====
-- The occupancy map of src/usbip_server/mod.rs, and what src/server.rs tells of it, at concrete inputs.
use lusbip.Base.{
  retain, remove_first, ℕ, ◌≡◌, refl, true, [], ◌∷◌, none, some, text_eq, any, find, arith,
}
use lusbip.Device.Codes.{UsbDevice}
use lusbip.Registry.Defs.{new_simulated, occupy, prepare_device_for_import, occupy_take, trim_busid}
use lusbip.Registry.Unique.{holds}
use lusbip.Registry.Import.{import_named, is_utf8, give_back, handle_op_req_import}
use lusbip.Registry.Sessions.{after_import, import_on}
use lusbip.Registry.Occupancy.{
  after_answer, clear_occupancy, set_occupancy, Tracked, import_tracked, import_cut,
  imports_tracked, closes_tracked, close_tracked, TrackedReach,
}
use lusbip.Registry.Tracking.{IsServed, TrackedReach-IsServed}
use lusbip.Registry.Stale.{import_cut-stale}
use lusbip.Registry.Overlap.{import_overlapped, import_overlapped-lost}
use lusbip.Client.Texts.{is_empty, is_whitespace}
use lusbip.Client.Listing.{all_chars, parse_remote_occupancy_status}
use lusbip.Server.Status.{occupancy_status}
use lusbip.Server.Filter.{
  sync_from_host_with_filter, current_infos, is_usb_hub, matches, is_number, is_bus_id,
  export_bus_id,
}
use lusbip.Server.Synced.{retain_current, sync_server_devices, SyncedReach, SyncedReach-Held}
use lusbip.Server.Told.{parse_remote_occupancy_status-occupancy_status}
use lusbip.Tests.Devices.{listed, all_devices, one, two, sent_one, devices, start, stick}

abbrev tracked_start : Tracked ℕ ℕ
tracked_start = record { world = start; occupancy = λ b. none }

-- The connection `0` imports the device `1`, the connection `1` asks for it too, and `0` ends.
TrackedReach-IsServed_example :
    IsServed (close_tracked 0 (import_tracked 1 sent_one (import_tracked 0 sent_one tracked_start)))
unfolding any text_eq
TrackedReach-IsServed_example =
    TrackedReach-IsServed devices (refl, (refl, tt))
      (TrackedReach.next
        (TrackedReach.next (TrackedReach.next TrackedReach.here (imports_tracked 0 sent_one))
          (imports_tracked 1 sent_one))
        (closes_tracked 0))

imported_one : IsServed (import_tracked 0 sent_one tracked_start)
unfolding any text_eq
imported_one =
    TrackedReach-IsServed devices (refl, (refl, tt))
      (TrackedReach.next TrackedReach.here (imports_tracked 0 sent_one))

-- The connection `0` has the device `1`, and asks for the device `2`.
import_cut-stale_example :
    let t = import_cut 0 (50 ∷ 0 ∷ []) (import_tracked 0 sent_one tracked_start) in
    (t.occupancy one ≡ some 0)
    × (t.world.session 0 ≡ none)
    × (holds one t.world.server.available_devices ≡ true)
unfolding trim_busid is_utf8 text_eq import_tracked import_on after_import handle_op_req_import
    import_named give_back occupy occupy_take find new_simulated prepare_device_for_import
import_cut-stale_example =
    import_cut-stale 0 (50 ∷ 0 ∷ []) (import_tracked 0 sent_one tracked_start) (stick one)
      imported_one refl refl refl

-- The connection `0` has the device `1` and asks for the device `2`; the connection `1` asks for the
-- device `1` meanwhile.
import_overlapped-lost_example :
    let t =
      import_overlapped 0 (50 ∷ 0 ∷ []) 1 sent_one (import_tracked 0 sent_one tracked_start) in
    (e : UsbDevice ℕ ℕ) × (t.world.session 1 ≡ some e) × (e.bus_id ≡ one) × (t.occupancy one ≡ none)
unfolding trim_busid is_utf8 text_eq import_tracked import_on after_import handle_op_req_import
    import_named give_back occupy occupy_take find new_simulated prepare_device_for_import
import_overlapped-lost_example =
    import_overlapped-lost 0 1 (50 ∷ 0 ∷ []) sent_one (import_tracked 0 sent_one tracked_start)
      (stick one) imported_one (λ h. omega arith) refl refl refl refl refl refl

-- The connection `0` imports the device `1`, and a synchronisation finds it plugged in.
SyncedReach-Held_example :
    (d : UsbDevice ℕ ℕ) × ((sync_server_devices true all_devices
          (λ new. [])
          listed
          (import_tracked 0 sent_one tracked_start)).world.session
        0
      ≡ some d)
    × (d.bus_id ≡ one)
unfolding sync_server_devices retain_current any sync_from_host_with_filter current_infos retain
    is_usb_hub matches is_number is_bus_id text_eq export_bus_id import_tracked after_answer
    handle_op_req_import is_utf8 trim_busid find remove_first occupy occupy_take
    prepare_device_for_import give_back import_named clear_occupancy set_occupancy new_simulated
SyncedReach-Held_example =
    SyncedReach-Held start.server
      (SyncedReach.syncs true all_devices (λ new. []) listed
        (SyncedReach.serves SyncedReach.here (imports_tracked 0 sent_one)))
      one 0 refl

-- The address `2` has the device `1`.
parse_remote_occupancy_status-occupancy_status_example :
    parse_remote_occupancy_status (occupancy_status ((one, two) ∷ [])) ≡ (one, two) ∷ []
unfolding is_empty all_chars is_whitespace
parse_remote_occupancy_status-occupancy_status_example =
    parse_remote_occupancy_status-occupancy_status ((one, two) ∷ [])
      (((refl, refl), (refl, refl)), tt)
