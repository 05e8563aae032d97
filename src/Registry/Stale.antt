-- ===== src/Registry/Stale.antt =====
-- Where the occupancy map of src/usbip_server/mod.rs is wrong.
use lusbip.Base.{
  ℕ, ◌≡◌, refl, true, false, List, Option, none, some, Text, text_eq, text_eq_refl, arith,
  Bool-cases, inl, inr,
}
use lusbip.Device.Codes.{UsbDevice}
use lusbip.Registry.Defs.{UsbIpServer, trim_busid, release}
use lusbip.Registry.Unique.{holds}
use lusbip.Registry.Invariant.{IsRegistry, release_lem, occupy_moves, occupy_missing}
use lusbip.Registry.Tracking.{IsServed}
use lusbip.Registry.Import.{handle_valid, import_named, give_back, is_utf8}
use lusbip.Registry.Sessions.{World, put, put_self, put_twice, after_import, import_on, close}
use lusbip.Registry.Occupancy.{Occupancy, clear_occupancy, Tracked, close_tracked, import_cut}

module _ {D I : Type 0} where
  pub import_on-valid :
      (i : ℕ) (busid : List ℕ) (w : World D I)
      → is_utf8 (trim_busid busid) ≡ true
      → let named = import_named (trim_busid busid) (give_back (w.session i) w.server) in
        import_on i busid w ≡ record { server = named.2; session = put i named.1 w.session }
  unfolding import_on after_import
  import_on-valid i busid w u = rw (handle_valid busid (w.session i) w.server u) refl

  close-put :
      (i : ℕ) (o : Option (UsbDevice D I)) (t : UsbIpServer D I) (f : ℕ → Option (UsbDevice D I))
      (m : Occupancy)
      → close_tracked i
          (record { world = record { server = t; session = put i o f }; occupancy = m })
        ≡ record {
          world = record { server = give_back o t; session = put i none f };
          occupancy = clear_occupancy o m;
        }
  unfolding close_tracked close
  close-put i o t f m = rw (put_self i o f, put_twice i none o f) refl

  -- After a device was given back, and `c` imported and lost again, where that was available.
  cut :
      (c : Text) (i : ℕ) (d : UsbDevice D I) (s : UsbIpServer D I) (f : ℕ → Option (UsbDevice D I))
      (m : Occupancy)
      → IsRegistry s
      → holds d.bus_id s.available_devices ≡ true
      → text_eq c d.bus_id ≡ false
      → m d.bus_id ≡ some i
      → let named = import_named c s in
        (clear_occupancy named.1 m d.bus_id ≡ some i)
        × (put i none f i ≡ none)
        × (holds d.bus_id (give_back named.1 named.2).available_devices ≡ true)
  unfolding import_named clear_occupancy give_back
  cut c i d s f m v free n listed = elim (Bool-cases (holds c s.available_devices)) [
    | inr taken ↦ rw (occupy_missing c s taken, import_named) (listed, put_self i none f, free)
    | inl there ↦
        let (x, t, e, named, vt, left, used) = occupy_moves c s v there in
        let other : text_eq x.bus_id d.bus_id ≡ false = rw named n in
        let back = release_lem x d.bus_id t vt in
        rw (e, import_named)
          (rw other listed, put_self i none f, ground (arith, back.1, left d.bus_id, free, n))
  ]

  -- When the answer to an import cannot be written, the device that the connection had before stays
  -- occupied by it, unless it is the one imported; the connection has no device any more, and the
  -- device can be imported.
  pub import_cut-stale :
      (i : ℕ) (busid : List ℕ) (s : Tracked D I) (d : UsbDevice D I)
      → IsServed s
      → s.world.session i ≡ some d
      → is_utf8 (trim_busid busid) ≡ true
      → text_eq (trim_busid busid) d.bus_id ≡ false
      → let t = import_cut i busid s in
        (t.occupancy d.bus_id ≡ some i)
        × (t.world.session i ≡ none)
        × (holds d.bus_id t.world.server.available_devices ≡ true)
  unfolding import_cut give_back release
  import_cut-stale i busid s d v h u n =
      let back = release_lem d d.bus_id s.world.server v.exclusive.registry in
      let free : holds d.bus_id (release d s.world.server).available_devices ≡ true =
        ground (arith, back.1, text_eq_refl d.bus_id) in
      rw (import_on-valid i busid s.world u, h)
        (rw (close-put i _ _ s.world.session s.occupancy) (
          cut (trim_busid busid) i d (release d s.world.server) s.world.session s.occupancy back.0
            free n (v.tracked.listed i d h)))
