-- ===== src/Registry/Sync.antt =====
-- The registry of src/usbip_server/mod.rs against the devices plugged in: `remove_device`,
-- `sync_from_host_with_filter` and `cleanup`.
use lusbip.Base.{
  ◌≡◌, refl, sym, ap, subst, ◌∙◌, Bool, true, false, not, ◌&&◌, ◌||◌, List, [], ◌∷◌, Text, text_eq,
  text_eq_iff, any, retain, remove_first, arith, Bool-cases, inl, inr, ◌⊎◌,
}
use lusbip.Device.Codes.{UsbDevice}
use lusbip.Registry.Defs.{
  UsbIpServer, ok, err, in_use, not_found, has_bus_id, remove_device, cleanup, sync_retain,
  unique_devices_by_bus_id,
}
use lusbip.Registry.Unique.{
  holds, Distinct, holds-remove_first, remove_first-Distinct, unique-Distinct, holds_unique,
  holds-reclaim, reclaim-Distinct,
}
use lusbip.Registry.Invariant.{IsRegistry}

apart_less : (a u q : Bool) → (a && u) ≡ false → ((a && not q) && u) ≡ false
apart_less a u q h = ground arith

module _ {D I : Type 0} where
  -- The device is plugged in: its id is among those of the host.
  abbrev pub plugged : List Text → UsbDevice D I → Bool
  plugged current d = any (text_eq d.bus_id) current

  pub remove_moves :
      (c : Text) (s : UsbIpServer D I)
      → IsRegistry s
      → holds c s.available_devices ≡ true
      → (t : UsbIpServer D I) × (remove_device c s ≡ ok t)
        × IsRegistry t
        × ((b : Text)
            → holds b t.available_devices ≡ (holds b s.available_devices && not (text_eq c b)))
        × (t.used_devices ≡ s.used_devices)
  unfolding remove_device
  remove_moves c s v h = (
    record s { available_devices = remove_first (has_bus_id c) s.available_devices },
    rw h,
    record {
      available_once = remove_first-Distinct c s.available_devices v.available_once;
      used_once = v.used_once;
      apart = λ b. rw (holds-remove_first b c s.available_devices v.available_once) (
          apart_less (holds b s.available_devices) (holds b s.used_devices) (text_eq c b)
            (v.apart b));
    },
    λ b. holds-remove_first b c s.available_devices v.available_once,
    refl,
  )

  -- An id that is removed was available and is not any more, and nothing else changes; an id in use
  -- and an unknown id are refused, each with its error.
  pub remove_device_lem :
      (c b : Text) (s : UsbIpServer D I)
      → IsRegistry s
      → ((holds c s.available_devices ≡ true)
          × ((t : UsbIpServer D I) × (remove_device c s ≡ ok t)
              × IsRegistry t
              × (holds b t.available_devices ≡ (holds b s.available_devices && not (text_eq c b)))
              × (t.used_devices ≡ s.used_devices)))
        ⊎ (((holds c s.available_devices ≡ false)
              × (holds c s.used_devices ≡ true)
              × (remove_device c s ≡ err in_use))
            ⊎ ((holds c s.available_devices ≡ false)
                × (holds c s.used_devices ≡ false)
                × (remove_device c s ≡ err not_found)))
  unfolding remove_device
  remove_device_lem c b s v = elim (Bool-cases (holds c s.available_devices)) [
    | inl h ↦ let (t, e, vt, left, same) = remove_moves c s v h in inl (h, (t, e, vt, left b, same))
    | inr h ↦ elim (Bool-cases (holds c s.used_devices)) [
      | inl k ↦ inr (inl (h, k, rw (h, k)))
      | inr k ↦ inr (inr (h, k, rw (h, k)))
    ]
  ]

  pub remove_device-IsRegistry :
      (c : Text) (s t : UsbIpServer D I)
      → IsRegistry s
      → remove_device c s ≡ ok t
      → IsRegistry t × (t.used_devices ≡ s.used_devices)
  remove_device-IsRegistry c s t v e = elim (remove_device_lem c c s v) [
    | inl (_, (t', q, vt, _, same)) ↦
        subst (λ (x : UsbIpServer D I). IsRegistry x × (x.used_devices ≡ s.used_devices))
          (ok_injective t' t (sym q ∙ e)) (vt, same)
    | inr (inl (_, _, q)) ↦ cc
    | inr (inr (_, _, q)) ↦ cc
  ]
    where
      ok_injective : (x y : UsbIpServer D I) → ok x ≡ ok y → x ≡ y
      ok_injective x y h = cc

  holds-plugged :
      (b : Text) (current : List Text) (v : List (UsbDevice D I))
      → holds b (retain (plugged current) v) ≡ (holds b v && any (text_eq b) current)
  unfolding any retain
  holds-plugged b current [] = refl
  holds-plugged b current (d ∷ ds) = elim (Bool-cases (text_eq d.bus_id b)) [
    | inl e ↦ ground (
      arith,
      holds-plugged b current ds,
      ap (λ (t : Text). any (text_eq t) current) ((text_eq_iff d.bus_id b).0 e),
    )
    | inr e ↦ ground (arith, holds-plugged b current ds)
  ]

  pub holds-kept :
      (b : Text) (current : List Text) (v : List (UsbDevice D I))
      → holds b (unique_devices_by_bus_id (retain (plugged current) v))
        ≡ (holds b v && any (text_eq b) current)
  holds-kept b current v = holds_unique b (retain (plugged current) v) ∙ holds-plugged b current v

  -- Synchronising drops the ids that the host no longer has, from both lists, and keeps the rest.
  pub sync_retain_lem :
      (current : List Text) (b : Text) (s : UsbIpServer D I)
      → IsRegistry s
      → IsRegistry (sync_retain current s)
        × (holds b (sync_retain current s).available_devices
            ≡ (holds b s.available_devices && any (text_eq b) current))
        × (holds b (sync_retain current s).used_devices
            ≡ (holds b s.used_devices && any (text_eq b) current))
  unfolding sync_retain
  sync_retain_lem current b s v = (
    record {
      available_once = unique-Distinct (retain (plugged current) s.available_devices);
      used_once = unique-Distinct (retain (plugged current) s.used_devices);
      apart = λ b'.
          rw (holds-kept b' current s.available_devices, holds-kept b' current s.used_devices)
            (apart_kept (holds b' s.available_devices) (holds b' s.used_devices)
              (any (text_eq b') current) (v.apart b'));
    },
    holds-kept b current s.available_devices,
    holds-kept b current s.used_devices,
  )
    where
      apart_kept : (a u q : Bool) → (a && u) ≡ false → ((a && q) && (u && q)) ≡ false
      apart_kept a u q h = ground arith

  -- On Linux `cleanup` hands back each known id once, those in use included, and empties the
  -- registry; elsewhere it makes them all available.
  pub cleanup_lem :
      (linux : Bool) (b : Text) (s : UsbIpServer D I)
      → IsRegistry s
      → Distinct (cleanup linux s).0
        × (holds b (cleanup linux s).0
            ≡ (linux && (holds b s.available_devices || holds b s.used_devices)))
        × IsRegistry (cleanup linux s).1
        × ((cleanup linux s).1.used_devices ≡ [])
        × (holds b (cleanup linux s).1.available_devices
            ≡ (not linux && (holds b s.available_devices || holds b s.used_devices)))
  unfolding cleanup
  cleanup_lem true b s v = (
    reclaim-Distinct s.used_devices s.available_devices v.available_once,
    holds-reclaim b s.used_devices s.available_devices,
    record { available_once = tt; used_once = tt; apart = λ b'. unfold any in refl },
    refl,
    unfold any in refl,
  )
  cleanup_lem false b s v = (
    tt,
    unfold any in refl,
    record {
      available_once = reclaim-Distinct s.used_devices s.available_devices v.available_once;
      used_once = tt;
      apart = λ b'. unfold any in ground arith;
    },
    refl,
    holds-reclaim b s.used_devices s.available_devices,
  )
