-- ===== src/Registry/Races.antt =====
-- The gap in `occupy` of src/usbip_server/mod.rs: it drops the lock of the available devices
-- before it takes the lock of those in use, and a synchronisation that runs in between finds the
-- device in neither list.
use lusbip.Base.{
  ◌≡◌, refl, sym, ap, ◌∙◌, Bool, true, false, not, ◌&&◌, List, [], ◌∷◌, ◌++◌, map, Option, none,
  some, Text, text_eq, text_eq_iff, any, retain, find, remove_first, arith, Bool-cases, inl, inr,
  false≢true,
}
use lusbip.Device.Codes.{UsbDevice}
use lusbip.Registry.Defs.{
  UsbIpServer, Result, ok, err, no_available_device, has_bus_id, push_new, occupy_take, occupy_put,
  sync_retain, sync_append, unknown_bus_ids,
}
use lusbip.Registry.Unique.{holds, holds-append, holds-push_new, holds-remove_first, find_bus_id}
use lusbip.Registry.Invariant.{IsRegistry}
use lusbip.Registry.Sync.{holds-kept}

any-retain :
    (c : Text) (p : Text → Bool) (xs : List Text)
    → any (text_eq c) xs ≡ true
    → p c ≡ true
    → any (text_eq c) (retain p xs) ≡ true
unfolding any retain
any-retain c p [] h k = h
any-retain c p (x ∷ xs) h k = elim (Bool-cases (text_eq c x)) [
  | inl e ↦ ground (arith, sym (ap p ((text_eq_iff c x).0 e)) ∙ k)
  | inr e ↦ ground (arith, any-retain c p xs)
]

and_right : (a b : Bool) → a ≡ true → (a && b) ≡ false → b ≡ false
and_right a b h k = ground arith

module _ {D I : Type 0} where
  any-bus_ids :
      (c : Text) (ds : List (UsbDevice D I)) → any (text_eq c) (map (λ d. d.bus_id) ds) ≡ holds c ds
  unfolding any
  any-bus_ids c [] = refl
  any-bus_ids c (d ∷ ds) =
      ground (arith, any-bus_ids c ds, text_eq_iff c d.bus_id, text_eq_iff d.bus_id c)

  take_of :
      (c : Text) (s t : UsbIpServer D I) (d : UsbDevice D I) (o : Option (UsbDevice D I))
      → (elim o as (λ _. Result (UsbDevice D I × UsbIpServer D I)) [
        | none ↦ err no_available_device
        | some device ↦ ok (
          device,
          record s { available_devices = remove_first (has_bus_id c) s.available_devices },
        )
      ])
        ≡ ok (d, t)
      → (o ≡ some d)
        × (record s { available_devices = remove_first (has_bus_id c) s.available_devices } ≡ t)
  take_of c s t d none h = cc
  take_of c s t d (some e) h = (cc, cc)

  -- What is left of the registry when `occupy` has taken `c`, and the host was listed with `c`.
  taken_lem :
      (c : Text) (current : List Text) (s t : UsbIpServer D I) (d : UsbDevice D I)
      → IsRegistry s
      → occupy_take c s ≡ ok (d, t)
      → (d.bus_id ≡ c)
        × (holds c (sync_retain current t).available_devices ≡ false)
        × (holds c (sync_retain current t).used_devices ≡ false)
  unfolding occupy_take sync_retain
  taken_lem c current s t d v e =
      let (found, left) = take_of c s t d (find (has_bus_id c) s.available_devices) e in
      let (named, held) = find_bus_id c s.available_devices d found in
      let none_free : holds c t.available_devices ≡ false =
        sym (ap (λ (x : UsbIpServer D I). holds c x.available_devices) left)
        ∙ holds-remove_first c c s.available_devices v.available_once
        ∙ ground (arith, text_eq_iff c c) in
      let none_used : holds c t.used_devices ≡ false =
        sym (ap (λ (x : UsbIpServer D I). holds c x.used_devices) left)
        ∙ and_right (holds c s.available_devices) (holds c s.used_devices) held (v.apart c) in
      (
        named,
        holds-kept c current t.available_devices ∙ rw none_free refl,
        holds-kept c current t.used_devices ∙ rw none_used refl,
      )

  -- In every registry in which `c` is available, a synchronisation between the halves of `occupy`
  -- opens the device of `c` anew if it is plugged in, and the registry then holds `c` both as
  -- available and as in use: a second client can import the device that the first one has.
  pub occupy_gap :
      (c : Text) (current : List Text) (s t : UsbIpServer D I) (d : UsbDevice D I)
      (opened : List (UsbDevice D I))
      → IsRegistry s
      → occupy_take c s ≡ ok (d, t)
      → any (text_eq c) current ≡ true
      → holds c opened ≡ any (text_eq c) (unknown_bus_ids current (sync_retain current t))
      → let u = occupy_put d (sync_append opened (sync_retain current t)) in
        (holds c u.available_devices ≡ true) × (holds c u.used_devices ≡ true) × ¬ (IsRegistry u)
  unfolding occupy_put sync_append unknown_bus_ids
  occupy_gap c current s t d opened v e here open_eq =
      let r = sync_retain current t in
      let (named, free, used) = taken_lem c current s t d v e in
      let known = map (λ (x : UsbDevice D I). x.bus_id) (r.available_devices ++ r.used_devices) in
      let unknown : any (text_eq c) known ≡ false =
        any-bus_ids c (r.available_devices ++ r.used_devices)
        ∙ holds-append c r.available_devices r.used_devices
        ∙ rw (free, used) refl in
      let fresh : holds c opened ≡ true =
        open_eq ∙ any-retain c (λ b. not (any (text_eq b) known)) current here (rw unknown refl) in
      let both_free : holds c (r.available_devices ++ opened) ≡ true =
        holds-append c r.available_devices opened ∙ rw (free, fresh) refl in
      let both_used : holds c (push_new d r.used_devices) ≡ true =
        holds-push_new c d r.used_devices ∙ rw (used, (text_eq_iff d.bus_id c).1 named) refl in
      (both_free, both_used, λ bad. false≢true (sym (bad.apart c) ∙ rw (both_free, both_used) refl))
