-- ===== src/Registry/Overlap.antt =====
-- Two imports of `handler` in src/usbip_server/mod.rs whose steps overlap.
use lusbip.Base.{
  ℕ, ◌≡◌, ◌≢◌, refl, ◌∙◌, true, false, List, Option, none, some, text_eq, text_eq_refl, arith,
  Bool-cases, inl, inr,
}
use lusbip.Device.Codes.{UsbDevice}
use lusbip.Registry.Defs.{UsbIpServer, trim_busid, release}
use lusbip.Registry.Unique.{holds}
use lusbip.Registry.Invariant.{IsRegistry, release_lem, occupy_moves, occupy_missing}
use lusbip.Registry.Import.{handle_op_req_import, handle_valid, import_named, give_back, is_utf8}
use lusbip.Registry.Sessions.{put, put_self, import_on}
use lusbip.Registry.Occupancy.{
  Occupancy, set_occupancy, clear_occupancy, Tracked, after_answer, import_tracked,
}
use lusbip.Registry.Held.{put-other}
use lusbip.Registry.Tracking.{IsServed}
use lusbip.Registry.Stale.{import_on-valid}

module _ {D I : Type 0} where
  -- The connection `j` imports while the answer of `i` is written, before `i` changes the map.
  unfoldable pub import_overlapped : ℕ → List ℕ → ℕ → List ℕ → Tracked D I → Tracked D I
  import_overlapped i busid j asked s =
      let previous = s.world.session i in
      let t =
        import_tracked j asked
          (record { world = import_on i busid s.world; occupancy = s.occupancy }) in
      record t {
        occupancy =
            after_answer i previous (handle_op_req_import busid previous s.world.server)
              t.occupancy;
      }

  -- The device that `i` gave back is available after its import of another one.
  given_back :
      (i : ℕ) (busid : List ℕ) (s : Tracked D I) (d : UsbDevice D I)
      → IsServed s
      → s.world.session i ≡ some d
      → text_eq (trim_busid busid) d.bus_id ≡ false
      → let named = import_named (trim_busid busid) (give_back (some d) s.world.server) in
        IsRegistry named.2
        × (holds d.bus_id named.2.available_devices ≡ true)
        × ((m : Occupancy) → set_occupancy i named.1 (clear_occupancy (some d) m) d.bus_id ≡ none)
  unfolding import_named set_occupancy clear_occupancy give_back
  given_back i busid s d v h n =
      let c = trim_busid busid in
      let t = release d s.world.server in
      let back = release_lem d d.bus_id s.world.server v.exclusive.registry in
      let free : holds d.bus_id t.available_devices ≡ true =
        ground (arith, back.1, text_eq_refl d.bus_id) in
      elim (Bool-cases (holds c t.available_devices)) [
        | inr taken ↦
            rw (occupy_missing c t taken, import_named)
              (back.0, free, λ m. rw (text_eq_refl d.bus_id) refl)
        | inl there ↦
            let (x, u, e, named, vu, left, used) = occupy_moves c t back.0 there in
            let other : text_eq x.bus_id d.bus_id ≡ false = rw named n in
            rw (e, import_named)
              (
                vu,
                ground (arith, left d.bus_id, free, n),
                λ m. rw (other, text_eq_refl d.bus_id) refl,
              )
      ]

  -- An idle connection imports an id that is available.
  takes :
      (j : ℕ) (asked : List ℕ) (s : UsbIpServer D I) (f : ℕ → Option (UsbDevice D I))
      (m : Occupancy)
      → IsRegistry s
      → holds (trim_busid asked) s.available_devices ≡ true
      → is_utf8 (trim_busid asked) ≡ true
      → f j ≡ none
      → let t =
          import_tracked j asked
            (record { world = record { server = s; session = f }; occupancy = m }) in
        (e : UsbDevice D I) × (t.world.session j ≡ some e) × (e.bus_id ≡ trim_busid asked)
  unfolding import_named import_tracked give_back
  takes j asked s f m v free u idle =
      let (x, t, e, named, vt, left, used) = occupy_moves (trim_busid asked) s v free in
      rw (import_on-valid j asked (record { server = s; session = f }) u, idle)
        (rw (e, import_named) (x, put_self j (some x) (λ k. none), named))

  -- When a connection imports the device that another one gives back by importing another device,
  -- before that one has changed the map, the device is in use and the map has no peer for it.
  pub import_overlapped-lost :
      (i j : ℕ) (busid asked : List ℕ) (s : Tracked D I) (d : UsbDevice D I)
      → IsServed s
      → i ≢ j
      → s.world.session i ≡ some d
      → s.world.session j ≡ none
      → is_utf8 (trim_busid busid) ≡ true
      → is_utf8 (trim_busid asked) ≡ true
      → text_eq (trim_busid busid) d.bus_id ≡ false
      → trim_busid asked ≡ d.bus_id
      → let t = import_overlapped i busid j asked s in
        (e : UsbDevice D I) × (t.world.session j ≡ some e)
        × (e.bus_id ≡ d.bus_id)
        × (t.occupancy d.bus_id ≡ none)
  unfolding import_overlapped after_answer
  import_overlapped-lost i j busid asked s d v ne h k u w n a =
      let named = import_named (trim_busid busid) (give_back (some d) s.world.server) in
      let session = put i named.1 s.world.session in
      let there = given_back i busid s d v h n in
      let idle : session j ≡ none = put-other i j named.1 s.world.session ne ∙ k in
      let (x, e, same) = takes j asked named.2 session s.occupancy there.0 (rw a there.1) w idle in
      rw (import_on-valid i busid s.world u, h)
        (rw (handle_valid busid (some d) s.world.server u) (x, e, same ∙ a, there.2 _))
