-- ===== src/Server/Synced.antt =====
-- A round of `sync_server_devices` of src/server.rs, among the connections of the registry.
use lusbip.Base.{
  ℕ, ◌≡◌, Bool, List, Option, none, some, Text, text_eq, any, if◌then◌else◌, Bool-cases, inl, inr,
}
use lusbip.Device.Codes.{UsbDevice}
use lusbip.Registry.Defs.{UsbIpServer}
use lusbip.Registry.Occupancy.{Occupancy, Tracked, TrackedStep}
use lusbip.Registry.Held.{none≢some, Held, TrackedStep-Held}
use lusbip.Server.Filter.{DeviceInfo, ServerDeviceFilter, sync_from_host_with_filter}

-- `retain` of the map.
unfoldable pub retain_current : List Text → Occupancy → Occupancy
retain_current current occupancy b = if any (text_eq b) current then occupancy b else none

module _ {D I : Type 0} where
  -- A round in which nusb lists its devices.
  unfoldable pub sync_server_devices :
      Bool
      → ServerDeviceFilter
      → (List DeviceInfo → List (UsbDevice D I))
      → List DeviceInfo
      → Tracked D I
      → Tracked D I
  sync_server_devices linux f opened infos s =
      let (current_bus_ids, t) = sync_from_host_with_filter linux f opened infos s.world.server in
      record {
        world = record (s.world) { server = t };
        occupancy = retain_current current_bus_ids s.occupancy;
      }

  pub data SyncedReach (s : Tracked D I) : Tracked D I → Type 0 where
    here : SyncedReach s s
    serves : {t u : Tracked D I} → SyncedReach s t → TrackedStep t u → SyncedReach s u
    syncs :
        {t : Tracked D I} (linux : Bool) (f : ServerDeviceFilter)
        (opened : List DeviceInfo → List (UsbDevice D I)) (infos : List DeviceInfo)
        → SyncedReach s t
        → SyncedReach s (sync_server_devices linux f opened infos t)

  retain_current-Held :
      (current : List Text) (session : ℕ → Option (UsbDevice D I)) (occupancy : Occupancy)
      → Held session occupancy
      → Held session (retain_current current occupancy)
  unfolding retain_current
  retain_current-Held current session occupancy v b i q =
      elim (Bool-cases (any (text_eq b) current)) [
        | inl h ↦ v b i (rw h at q)
        | inr h ↦ absurd (none≢some (rw h at q))
      ]

  -- Whatever imports, ends of connections, removals and synchronisations follow, each as a whole and
  -- with its answer written, when the occupancy map has a peer for a bus id, that peer's connection
  -- has a device of that id.
  pub SyncedReach-Held :
      (server : UsbIpServer D I) {s : Tracked D I}
      → SyncedReach
          (record {
            world = record { server = server; session = λ i. none };
            occupancy = λ b. none;
          })
          s
      → (b : Text) (i : ℕ) → s.occupancy b ≡ some i
      → (d : UsbDevice D I) × (s.world.session i ≡ some d) × (d.bus_id ≡ b)
  unfolding sync_server_devices
  SyncedReach-Held server here b i q = absurd (none≢some q)
  SyncedReach-Held server (serves r st) b i q =
      TrackedStep-Held st (SyncedReach-Held server r) b i q
  SyncedReach-Held server (syncs {t} linux f opened infos r) b i q =
      retain_current-Held _ t.world.session t.occupancy (SyncedReach-Held server r) b i q
