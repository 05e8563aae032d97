-- ===== src/Registry/Tracking.antt =====
-- What the occupancy map of src/usbip_server/mod.rs says of the connections' devices.
use lusbip.Base.{
  ℕ, ◌≡◌, ◌≢◌, refl, sym, ap, subst, true, false, List, Option, none, some, text_eq, text_eq_iff,
  Bool-cases, inl, inr,
}
use lusbip.Device.Codes.{UsbDevice}
use lusbip.Registry.Defs.{trim_busid, new_simulated}
use lusbip.Registry.Unique.{Distinct}
use lusbip.Registry.Import.{handle_valid, handle_invalid, import_named, give_back, is_utf8}
use lusbip.Registry.Sessions.{
  World, put, put-some, put-none, put_self, put_twice, same_id, after_import, import_on, close,
  imports, closes, removes, Reach, IsExclusive, Step-IsExclusive, Reach-IsExclusive,
}
use lusbip.Registry.Occupancy.{
  Occupancy, with_occupant, set_occupancy, clear_occupancy, Tracked, after_answer, import_tracked,
  close_tracked, TrackedStep, imports_tracked, closes_tracked, removes_tracked, TrackedReach, here,
  next, IsTracked, OneOwner,
}
use lusbip.Registry.Held.{none≢some, clear-Held, set-Held}

module _ {D I : Type 0} where
  -- Nothing changes where a connection has no device.
  idle-IsTracked :
      (i : ℕ) (session : ℕ → Option (UsbDevice D I)) (occupancy : Occupancy)
      → session i ≡ none
      → IsTracked session occupancy
      → IsTracked (put i none session) occupancy
  unfolding clear_occupancy
  idle-IsTracked i session occupancy free v = record {
    listed = λ j e q. v.listed j e (put-none i j session e q).1;
    held = clear-Held i none session occupancy free v.held;
  }

  module _ (i : ℕ) (d : UsbDevice D I) (session : ℕ → Option (UsbDevice D I))
      (occupancy : Occupancy) (v : IsTracked session occupancy) where
    release-IsTracked :
        OneOwner session
        → session i ≡ some d
        → IsTracked (put i none session) (with_occupant d.bus_id none occupancy)
    unfolding clear_occupancy
    release-IsTracked one here_is = record {
      listed = λ j e q.
          let (ne, s) = put-none i j session e q in
          let n : text_eq d.bus_id e.bus_id ≡ false = apart j e ne s in rw n (v.listed j e s);
      held = clear-Held i (some d) session occupancy here_is v.held;
    }
      where
        apart :
            (j : ℕ) (e : UsbDevice D I)
            → i ≢ j
            → session j ≡ some e
            → text_eq d.bus_id e.bus_id ≡ false
        apart j e ne s = elim (Bool-cases (text_eq d.bus_id e.bus_id)) [
          | inl t ↦ absurd (ne (one i j d e here_is s ((text_eq_iff d.bus_id e.bus_id).0 t)))
          | inr t ↦ t
        ]

    take-IsTracked :
        OneOwner (put i (some d) session)
        → session i ≡ none
        → IsTracked (put i (some d) session) (with_occupant d.bus_id (some i) occupancy)
    unfolding set_occupancy
    take-IsTracked one free = record {
      listed = λ j e q. elim (put-some i j (some d) session e q) [
        | inl p ↦
            let named = (text_eq_iff d.bus_id e.bus_id).1 (same_id d e p.1) in
            rw named (ap (λ k. some k) p.0)
        | inr p ↦
            let n : text_eq d.bus_id e.bus_id ≡ false = apart j e p.0 q in rw n (v.listed j e p.1)
      ];
      held = set-Held i (some d) session occupancy free v.held;
    }
      where
        apart :
            (j : ℕ) (e : UsbDevice D I)
            → i ≢ j
            → put i (some d) session j ≡ some e
            → text_eq d.bus_id e.bus_id ≡ false
        apart j e ne q = elim (Bool-cases (text_eq d.bus_id e.bus_id)) [
          | inl t ↦ absurd (
              ne
                (one i j d e (put_self i (some d) session) q ((text_eq_iff d.bus_id e.bus_id).0 t)))
          | inr t ↦ t
        ]

  -- The session and the map after a connection has given back what it has.
  clear-IsTracked :
      (i : ℕ) (o : Option (UsbDevice D I)) (session : ℕ → Option (UsbDevice D I))
      (occupancy : Occupancy)
      → session i ≡ o
      → OneOwner session
      → IsTracked session occupancy
      → IsTracked (put i none session) (clear_occupancy o occupancy)
  unfolding clear_occupancy
  clear-IsTracked i none session occupancy e one v = idle-IsTracked i session occupancy e v
  clear-IsTracked i (some d) session occupancy e one v =
      release-IsTracked i d session occupancy v one e

  set-IsTracked :
      (i : ℕ) (o : Option (UsbDevice D I)) (session : ℕ → Option (UsbDevice D I))
      (occupancy : Occupancy)
      → session i ≡ none
      → OneOwner (put i o session)
      → IsTracked session occupancy
      → IsTracked (put i o session) (set_occupancy i o occupancy)
  unfolding set_occupancy
  set-IsTracked i none session occupancy e one v = idle-IsTracked i session occupancy e v
  set-IsTracked i (some d) session occupancy e one v = take-IsTracked i d session occupancy v one e

  session_valid :
      (i : ℕ) (busid : List ℕ) (w : World D I)
      → is_utf8 (trim_busid busid) ≡ true
      → (import_on i busid w).session
        ≡ put i (import_named (trim_busid busid) (give_back (w.session i) w.server)).1 w.session
  unfolding import_on after_import
  session_valid i busid w u = rw (handle_valid busid (w.session i) w.server u) refl

  import-IsTracked :
      (i : ℕ) (busid : List ℕ) (s : Tracked D I)
      → IsExclusive s.world
      → IsTracked s.world.session s.occupancy
      → let t = import_tracked i busid s in IsTracked t.world.session t.occupancy
  unfolding import_tracked import_on after_answer after_import
  import-IsTracked i busid s x v =
      let session = s.world.session in
      let cleared = clear-IsTracked i (session i) session s.occupancy refl x.one_owner v in
      let one = (Step-IsExclusive (imports i busid) x).one_owner in
      let named = import_named (trim_busid busid) (give_back (session i) s.world.server) in
      elim (Bool-cases (is_utf8 (trim_busid busid))) [
        | inl u ↦
            let e = handle_valid busid (session i) s.world.server u in
            let one' : OneOwner (put i named.1 session) =
              subst OneOwner (session_valid i busid s.world u) one in
            rw e (
              subst
                (λ f.
                  IsTracked f (set_occupancy i named.1 (clear_occupancy (session i) s.occupancy)))
                (put_twice i named.1 none session)
                (set-IsTracked i named.1 (put i none session) _ (put_self i none session)
                  (subst OneOwner (sym (put_twice i named.1 none session)) one') cleared))
        | inr u ↦ rw (handle_invalid busid (session i) s.world.server u) cleared
      ]

  -- A registry and its connections are well formed, and the map says what they have.
  pub record IsServed (s : Tracked D I) : Type 0 where
    pub exclusive : IsExclusive s.world
    pub tracked : IsTracked s.world.session s.occupancy

  TrackedStep-IsServed : {s t : Tracked D I} → TrackedStep s t → IsServed s → IsServed t
  unfolding import_tracked close_tracked close
  TrackedStep-IsServed {s} (imports_tracked i busid) v = record {
    exclusive = Step-IsExclusive (imports i busid) v.exclusive;
    tracked = import-IsTracked i busid s v.exclusive v.tracked;
  }
  TrackedStep-IsServed {s} (closes_tracked i) v = record {
    exclusive = Step-IsExclusive (closes i) v.exclusive;
    tracked =
        clear-IsTracked i (s.world.session i) s.world.session s.occupancy refl v.exclusive.one_owner
          v.tracked;
  }
  TrackedStep-IsServed {s} (removes_tracked bus_id t e) v = record {
    exclusive = Step-IsExclusive (removes bus_id t e) v.exclusive;
    tracked = v.tracked;
  }

  -- Whatever imports, ends of connections and removals follow, each as a whole and with its answer
  -- written, the registry stays well formed and exclusive, and the occupancy map has a peer for
  -- exactly the bus ids that the peer's connection has.
  pub TrackedReach-IsServed :
      (devices : List (UsbDevice D I)) {s : Tracked D I}
      → Distinct devices
      → TrackedReach
          (record {
            world = record { server = new_simulated devices; session = λ i. none };
            occupancy = λ b. none;
          })
          s
      → IsServed s
  TrackedReach-IsServed devices h here = record {
    exclusive = Reach-IsExclusive devices h Reach.here;
    tracked = record {
      listed = λ i d q. absurd (none≢some q);
      held = λ b i q. absurd (none≢some q);
    };
  }
  TrackedReach-IsServed devices h (next r st) =
      TrackedStep-IsServed st (TrackedReach-IsServed devices h r)
