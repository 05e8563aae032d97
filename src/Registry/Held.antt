-- ===== src/Registry/Held.antt =====
-- That the occupancy map of src/usbip_server/mod.rs names no peer without the device.
use lusbip.Base.{
  ℕ, ◌≡◌, ◌≢◌, refl, sym, ap, subst, ◌∙◌, List, Option, none, some, Text, text_eq, text_eq_iff,
  arith, Bool-cases, inl, inr, false≢true,
}
use mathlib.Core.Option.{some-injective}
use lusbip.Device.Codes.{UsbDevice}
use lusbip.Registry.Defs.{trim_busid}
use lusbip.Registry.Import.{handle_valid, handle_invalid, import_named, give_back, is_utf8}
use lusbip.Registry.Sessions.{put, put_self, put_twice, same_id, after_import, import_on, close}
use lusbip.Registry.Occupancy.{
  Occupancy, set_occupancy, clear_occupancy, Tracked, after_answer, import_tracked, close_tracked,
  TrackedStep, imports_tracked, closes_tracked, removes_tracked,
}

pub none≢some {ℓ} : {A : Type ℓ} {a : A} → none ≡ some a → ⊥
none≢some h = cc h

module _ {D I : Type 0} where
  -- The connection of a peer in the map has the device.
  abbrev pub Held : (ℕ → Option (UsbDevice D I)) → Occupancy → Type 0
  Held session occupancy =
      (b : Text) (i : ℕ)
      → occupancy b ≡ some i
      → (d : UsbDevice D I) × (session i ≡ some d) × (d.bus_id ≡ b)

  pub put-other :
      (i j : ℕ) (o : Option (UsbDevice D I)) (f : ℕ → Option (UsbDevice D I))
      → i ≢ j
      → put i o f j ≡ f j
  put-other i j o f h = ground arith

  -- After a connection has given back what it has.
  pub clear-Held :
      (i : ℕ) (o : Option (UsbDevice D I)) (session : ℕ → Option (UsbDevice D I))
      (occupancy : Occupancy)
      → session i ≡ o
      → Held session occupancy
      → Held (put i none session) (clear_occupancy o occupancy)
  unfolding clear_occupancy
  clear-Held i none session occupancy free v b j q =
      let (e, s, n) = v b j q in
      (e, put-other i j none session (λ h. none≢some (sym free ∙ ap session h ∙ s)) ∙ s, n)
  clear-Held i (some d) session occupancy has v b j q = elim (Bool-cases (text_eq d.bus_id b)) [
    | inl t ↦ absurd (none≢some (rw t at q))
    | inr t ↦
        let (e, s, n) = v b j (rw t at q) in
        let other : i ≢ j = λ h.
          false≢true
            (sym t ∙ (text_eq_iff d.bus_id b).1 (same_id d e (sym has ∙ ap session h ∙ s) ∙ n)) in
        (e, put-other i j none session other ∙ s, n)
  ]

  -- After a connection without a device has imported one, or none.
  pub set-Held :
      (i : ℕ) (o : Option (UsbDevice D I)) (session : ℕ → Option (UsbDevice D I))
      (occupancy : Occupancy)
      → session i ≡ none
      → Held session occupancy
      → Held (put i o session) (set_occupancy i o occupancy)
  unfolding set_occupancy
  set-Held i none session occupancy free v b j q =
      let (e, s, n) = v b j q in
      (e, put-other i j none session (λ h. none≢some (sym free ∙ ap session h ∙ s)) ∙ s, n)
  set-Held i (some d) session occupancy free v b j q = elim (Bool-cases (text_eq d.bus_id b)) [
    | inl t ↦
        let same : i ≡ j = some-injective i j (rw t at q) in
        (
          d,
          ap (put i (some d) session) (sym same) ∙ put_self i (some d) session,
          (text_eq_iff d.bus_id b).0 t,
        )
    | inr t ↦
        let (e, s, n) = v b j (rw t at q) in
        (e, put-other i j (some d) session (λ h. none≢some (sym free ∙ ap session h ∙ s)) ∙ s, n)
  ]

  import-Held :
      (i : ℕ) (busid : List ℕ) (s : Tracked D I)
      → Held s.world.session s.occupancy
      → let t = import_tracked i busid s in Held t.world.session t.occupancy
  unfolding import_tracked import_on after_answer after_import
  import-Held i busid s v =
      let session = s.world.session in
      let cleared = clear-Held i (session i) session s.occupancy refl v in
      let named = import_named (trim_busid busid) (give_back (session i) s.world.server) in
      elim (Bool-cases (is_utf8 (trim_busid busid))) [
        | inl u ↦ rw (handle_valid busid (session i) s.world.server u) (
            subst (λ f. Held f (set_occupancy i named.1 (clear_occupancy (session i) s.occupancy)))
              (put_twice i named.1 none session)
              (set-Held i named.1 (put i none session) _ (put_self i none session) cleared))
        | inr u ↦ rw (handle_invalid busid (session i) s.world.server u) cleared
      ]

  pub TrackedStep-Held :
      {s t : Tracked D I}
      → TrackedStep s t
      → Held s.world.session s.occupancy
      → Held t.world.session t.occupancy
  unfolding close_tracked close
  TrackedStep-Held {s} (imports_tracked i busid) v = import-Held i busid s v
  TrackedStep-Held {s} (closes_tracked i) v =
      clear-Held i (s.world.session i) s.world.session s.occupancy refl v
  TrackedStep-Held {s} (removes_tracked bus_id t e) v = v
