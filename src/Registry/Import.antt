-- ===== src/Registry/Import.antt =====
-- `handle_op_req_import` of src/usbip_server/mod.rs: a session gives back the device it has, and
-- imports the one that the client names.
use lusbip.Base.{
  ℕ, zero, suc, ◌≡◌, sym, ap, ◌∙◌, Bool, true, false, not, ◌&&◌, ◌||◌, List, [], ◌∷◌, Option, none,
  some, Text, text_eq, if◌then◌else◌, ◌==◌, leb, arith, inl, inr, ◌⊎◌,
}
use lusbip.Device.Codes.{UsbDevice}
use lusbip.Registry.Defs.{UsbIpServer, Result, ok, err, invalid_bus_id, occupy, release, trim_busid}
use lusbip.Registry.Unique.{holds}
use lusbip.Registry.Invariant.{IsRegistry, occupy_lem, release_lem}

-- What a first byte asks for: how many bytes follow, and the range of the next one.
utf8_start : ℕ → Option (ℕ × ℕ × ℕ)
utf8_start b =
    if leb b 0x7F
    then some (0, 0x80, 0xBF)
    else if leb b 0xC1
    then none
    else if leb b 0xDF
    then some (1, 0x80, 0xBF)
    else if b == 0xE0
    then some (2, 0xA0, 0xBF)
    else if b == 0xED
    then some (2, 0x80, 0x9F)
    else if leb b 0xEF
    then some (2, 0x80, 0xBF)
    else if b == 0xF0
    then some (3, 0x90, 0xBF)
    else if leb b 0xF3
    then some (3, 0x80, 0xBF)
    else if b == 0xF4
    then some (3, 0x80, 0x8F)
    else none

utf8_run : ℕ → ℕ → ℕ → List ℕ → Bool
unfolding utf8_start
utf8_run zero lo hi [] = true
utf8_run (suc n) lo hi [] = false
utf8_run zero lo hi (b ∷ bs) = elim (utf8_start b) [
  | none ↦ false
  | some (n, lo', hi') ↦ utf8_run n lo' hi' bs
]
utf8_run (suc n) lo hi (b ∷ bs) = leb lo b && (leb b hi && utf8_run n 0x80 0xBF bs)

-- `str::from_utf8` succeeds: the well-formed byte sequences of the Unicode standard.
unfoldable pub is_utf8 : List ℕ → Bool
unfolding utf8_run
is_utf8 bs = utf8_run 0 0x80 0xBF bs

-- The answer of the server: `UsbIpResponse::OpRepImport` with status 0 and the device, or status 1.
pub data ImportReply (D I : Type 0) : Type 0 where
  import_success : UsbDevice D I → ImportReply D I
  import_fail : ImportReply D I

module _ {D I : Type 0} where
  -- `if let Some(dev) = imported_device.take() { self.release(dev) }`.
  unfoldable pub give_back : Option (UsbDevice D I) → UsbIpServer D I → UsbIpServer D I
  give_back none s = s
  give_back (some d) s = release d s

  -- The answer, the device that the session has then, and the registry.
  unfoldable pub import_named :
      Text → UsbIpServer D I → ImportReply D I × Option (UsbDevice D I) × UsbIpServer D I
  import_named bus_id s = elim (occupy bus_id s) [
    | ok (device, t) ↦ (import_success device, some device, t)
    | err e ↦ (import_fail, none, s)
  ]

  unfoldable pub handle_op_req_import :
      List ℕ
      → Option (UsbDevice D I)
      → UsbIpServer D I
      → Result (ImportReply D I) × Option (UsbDevice D I) × UsbIpServer D I
  handle_op_req_import busid imported s =
      if is_utf8 (trim_busid busid)
      then (let (reply, device, t) = import_named (trim_busid busid) (give_back imported s) in
          (ok reply, device, t))
      else (err invalid_bus_id, imported, s)

  pub handle_valid :
      (busid : List ℕ) (imported : Option (UsbDevice D I)) (s : UsbIpServer D I)
      → is_utf8 (trim_busid busid) ≡ true
      → let r = import_named (trim_busid busid) (give_back imported s) in
        handle_op_req_import busid imported s ≡ (ok r.0, r.1, r.2)
  unfolding handle_op_req_import
  handle_valid busid imported s u = rw u

  pub handle_invalid :
      (busid : List ℕ) (imported : Option (UsbDevice D I)) (s : UsbIpServer D I)
      → is_utf8 (trim_busid busid) ≡ false
      → handle_op_req_import busid imported s ≡ (err invalid_bus_id, imported, s)
  unfolding handle_op_req_import
  handle_invalid busid imported s u = rw u

  -- What the registry knows of `b` after a session gave back the device that it had.
  abbrev pub owns : Option (UsbDevice D I) → Text → Bool
  owns none b = false
  owns (some d) b = text_eq d.bus_id b

  give_back_lem :
      (imported : Option (UsbDevice D I)) (b : Text) (s : UsbIpServer D I)
      → IsRegistry s
      → IsRegistry (give_back imported s)
        × (holds b (give_back imported s).available_devices
            ≡ (holds b s.available_devices || owns imported b))
        × (holds b (give_back imported s).used_devices
            ≡ (holds b s.used_devices && not (owns imported b)))
  unfolding give_back
  give_back_lem none b s v = (v, ground arith, ground arith)
  give_back_lem (some d) b s v = release_lem d b s v

  -- A valid request imports its device exactly when that is available once the session has given
  -- back its own. The session then has a device of that id, and every id `b` is in use if it was
  -- and is not the one given back, or if it is the imported one. If the device is not available
  -- the answer is a failure and the session is left with no device at all.
  pub handle_op_req_import_lem :
      (busid : List ℕ) (imported : Option (UsbDevice D I)) (b : Text) (s : UsbIpServer D I)
      → IsRegistry s
      → is_utf8 (trim_busid busid) ≡ true
      → let c = trim_busid busid in
        ((holds c s.available_devices || owns imported c) ≡ true)
          × ((d : UsbDevice D I) × (t : UsbIpServer D I) × (handle_op_req_import busid imported s
                ≡ (ok (import_success d), some d, t))
              × (d.bus_id ≡ c)
              × IsRegistry t
              × (holds b t.used_devices
                  ≡ ((holds b s.used_devices && not (owns imported b)) || text_eq c b)))
        ⊎ ((holds c s.available_devices || owns imported c) ≡ false)
          × (handle_op_req_import busid imported s ≡ (ok import_fail, none, give_back imported s))
  unfolding handle_op_req_import import_named
  handle_op_req_import_lem busid imported b s v u =
      let c = trim_busid busid in
      let t = give_back imported s in
      let gone = give_back_lem imported c s v in
      let rest = give_back_lem imported b s v in
      elim (occupy_lem c b t gone.0) [
        | inl (free, (d, t', e, named, v', _, used)) ↦ inl (
          sym gone.1 ∙ free,
          (
            d,
            t',
            rw (u, e, handle_op_req_import, import_named),
            named,
            v',
            used ∙ ap (λ (x : Bool). x || text_eq c b) rest.2,
          ),
        )
        | inr (taken, e) ↦ inr (sym gone.1 ∙ taken, rw (u, e, handle_op_req_import, import_named))
      ]
