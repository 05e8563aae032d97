-- ===== src/Registry/Invariant.antt =====
-- What keeps the registry of src/usbip_server/mod.rs well formed, and what each method does to the
-- sets of bus ids that are available and in use.
use lusbip.Base.{
  ◌≡◌, Bool, true, false, not, ◌&&◌, ◌||◌, Text, text_eq, any-some, remove_first, arith, Bool-cases,
  inl, inr, ◌⊎◌,
}
use lusbip.Device.Codes.{UsbDevice}
use lusbip.Registry.Defs.{
  UsbIpServer, ok, err, no_available_device, has_bus_id, push_new, occupy_take, occupy_put, occupy,
  prepare_device_for_import, release,
}
use lusbip.Registry.Unique.{
  holds, Distinct, holds-push_new, holds-retain_ne, retain-Distinct, push_new-Distinct,
  holds-remove_first, remove_first-Distinct, find_bus_id, find-none,
}

-- No bus id is available twice, or in use twice, or both.
pub record IsRegistry {D I : Type 0} (s : UsbIpServer D I) : Type 0 where
  pub available_once : Distinct s.available_devices
  pub used_once : Distinct s.used_devices
  pub apart : (b : Text) → (holds b s.available_devices && holds b s.used_devices) ≡ false

module _ {D I : Type 0} where
  -- `occupy` answers exactly when the id is available.
  occupy_found :
      (c : Text) (s : UsbIpServer D I)
      → holds c s.available_devices ≡ true
      → (d : UsbDevice D I) × (d.bus_id ≡ c)
        × (occupy c s
            ≡ ok (
              d,
              record {
                available_devices = remove_first (has_bus_id c) s.available_devices;
                used_devices = push_new d s.used_devices;
              },
            ))
  unfolding occupy occupy_take occupy_put prepare_device_for_import
  occupy_found c s h =
      let (d, e) = any-some (has_bus_id c) s.available_devices h in
      (d, (find_bus_id c s.available_devices d e).0, rw (e, occupy, occupy_take))

  pub occupy_missing :
      (c : Text) (s : UsbIpServer D I)
      → holds c s.available_devices ≡ false
      → occupy c s ≡ err no_available_device
  unfolding occupy occupy_take
  occupy_missing c s h = rw (find-none c s.available_devices h, occupy, occupy_take)

  -- The registry after an import, of which the clause for `occupy` speaks.
  occupied : Text → UsbDevice D I → UsbIpServer D I → UsbIpServer D I
  occupied c d s = record {
    available_devices = remove_first (has_bus_id c) s.available_devices;
    used_devices = push_new d s.used_devices;
  }

  occupied-IsRegistry :
      (c : Text) (d : UsbDevice D I) (s : UsbIpServer D I)
      → d.bus_id ≡ c
      → IsRegistry s
      → IsRegistry (occupied c d s)
  unfolding occupied
  occupied-IsRegistry c d s e v = record {
    available_once = remove_first-Distinct c s.available_devices v.available_once;
    used_once = push_new-Distinct d s.used_devices v.used_once;
    apart = λ b.
        rw
          (
            holds-remove_first b c s.available_devices v.available_once,
            holds-push_new b d s.used_devices,
            e,
          )
          (apart_moved (holds b s.available_devices) (holds b s.used_devices) (text_eq c b)
            (v.apart b));
  }
    where
      apart_moved : (a u q : Bool) → (a && u) ≡ false → ((a && not q) && (u || q)) ≡ false
      apart_moved a u q h = ground arith

  pub release-IsRegistry :
      (d : UsbDevice D I) (s : UsbIpServer D I) → IsRegistry s → IsRegistry (release d s)
  unfolding release
  release-IsRegistry d s v = record {
    available_once = push_new-Distinct d s.available_devices v.available_once;
    used_once = retain-Distinct _ s.used_devices v.used_once;
    apart = λ b.
        rw (holds-push_new b d s.available_devices, holds-retain_ne b d.bus_id s.used_devices)
          (apart_back (holds b s.available_devices) (holds b s.used_devices) (text_eq d.bus_id b)
            (v.apart b));
  }
    where
      apart_back : (a u q : Bool) → (a && u) ≡ false → ((a || q) && (u && not q)) ≡ false
      apart_back a u q h = ground arith

  pub occupy_moves :
      (c : Text) (s : UsbIpServer D I)
      → IsRegistry s
      → holds c s.available_devices ≡ true
      → (d : UsbDevice D I) × (t : UsbIpServer D I) × (occupy c s ≡ ok (d, t))
        × (d.bus_id ≡ c)
        × IsRegistry t
        × ((b : Text)
            → holds b t.available_devices ≡ (holds b s.available_devices && not (text_eq c b)))
        × ((b : Text) → holds b t.used_devices ≡ (holds b s.used_devices || text_eq c b))
  unfolding occupied
  occupy_moves c s v h =
      let (d, e, q) = occupy_found c s h in
      (
        d,
        occupied c d s,
        q,
        e,
        occupied-IsRegistry c d s e v,
        (λ b. holds-remove_first b c s.available_devices v.available_once),
        (λ b. rw (holds-push_new b d s.used_devices, e)),
      )

  -- A successful import of `c` keeps the registry well formed, returns a device of that id, and
  -- moves exactly that id: any id `b` is still known, is available unless it is `c`, and is in use
  -- if it was or is `c`. It succeeds exactly when `c` is available.
  pub occupy_lem :
      (c b : Text) (s : UsbIpServer D I)
      → IsRegistry s
      → ((holds c s.available_devices ≡ true)
          × ((d : UsbDevice D I) × (t : UsbIpServer D I) × (occupy c s ≡ ok (d, t))
              × (d.bus_id ≡ c)
              × IsRegistry t
              × (holds b t.available_devices ≡ (holds b s.available_devices && not (text_eq c b)))
              × (holds b t.used_devices ≡ (holds b s.used_devices || text_eq c b))))
        ⊎ ((holds c s.available_devices ≡ false) × (occupy c s ≡ err no_available_device))
  occupy_lem c b s v = elim (Bool-cases (holds c s.available_devices)) [
    | inl h ↦
        let (d, t, e, named, vt, left, used) = occupy_moves c s v h in
        inl (h, (d, t, e, named, vt, left b, used b))
    | inr h ↦ inr (h, occupy_missing c s h)
  ]

  -- Releasing a device keeps the registry well formed and makes exactly its id available: any id
  -- `b` is available if it was or is the device's, and in use if it was and is not the device's.
  pub release_lem :
      (d : UsbDevice D I) (b : Text) (s : UsbIpServer D I)
      → IsRegistry s
      → IsRegistry (release d s)
        × (holds b (release d s).available_devices
            ≡ (holds b s.available_devices || text_eq d.bus_id b))
        × (holds b (release d s).used_devices
            ≡ (holds b s.used_devices && not (text_eq d.bus_id b)))
  unfolding release
  release_lem d b s v = (
    release-IsRegistry d s v,
    holds-push_new b d s.available_devices,
    holds-retain_ne b d.bus_id s.used_devices,
  )
