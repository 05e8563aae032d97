-- ===== src/Device/Replies.antt =====
-- `UsbIpResponse::OpRepDevlist` and `UsbIpResponse::OpRepImport` of src/usbip_server/usbip_protocol.rs:
-- how they are made and written.
use lusbip.Base.{
  ℕ, ◌+◌, ◌*◌, ◌%◌, ◌^◌, ◌≡◌, refl, sym, subst, Bool, false, not, ◌&&◌, List, [], ◌∷◌, ◌++◌, Option,
  none, some, length, length-append, leb, All, arith,
}
use lusbip.Protocol.Stream.{Outcome, ok, err, panic, u16_to_be_bytes, u32_to_be_bytes}
use lusbip.Protocol.Header.{usbip_version}
use lusbip.Device.Codes.{UsbDevice}
use lusbip.Device.Export.{
  to_bytes, to_bytes_with_interfaces, HasLength, to_bytes_with_interfaces_lem,
}

abbrev pub op_rep_devlist_code : ℕ
op_rep_devlist_code = 0x0005

abbrev pub op_rep_import_code : ℕ
op_rep_import_code = 0x0003

pub record OpRepDevlist (D I : Type 0) : Type 0 where
  pub status : ℕ
  pub device_count : ℕ
  pub devices : List (UsbDevice D I)

pub record OpRepImport (D I : Type 0) : Type 0 where
  pub status : ℕ
  pub device : Option (UsbDevice D I)

-- Bytes in front of those that a call gives.
unfoldable pub behind : List ℕ → Outcome (List ℕ) → Outcome (List ℕ)
behind front (ok bytes) = ok (front ++ bytes)
behind front (err e) = err e
behind front panic = panic

unfoldable pub followed_by : Outcome (List ℕ) → Outcome (List ℕ) → Outcome (List ℕ)
followed_by (ok front) rest = behind front rest
followed_by (err e) rest = err e
followed_by panic rest = panic

unfoldable pub reply_start : ℕ → ℕ → List ℕ
reply_start code status =
    u16_to_be_bytes usbip_version ++ (u16_to_be_bytes code ++ u32_to_be_bytes status)

behind-HasLength :
    (n : ℕ) (front : List ℕ) (o : Outcome (List ℕ))
    → HasLength n o
    → HasLength (length front + n) (behind front o)
unfolding behind
behind-HasLength n front (ok bytes) h = omega (arith, length-append front bytes, h)
behind-HasLength n front (err e) h = h
behind-HasLength n front panic h = h

followed_by-HasLength :
    (m n : ℕ) (o p : Outcome (List ℕ))
    → HasLength m o
    → HasLength n p
    → HasLength (m + n) (followed_by o p)
unfolding followed_by
followed_by-HasLength m n (ok front) p h k = rw (sym h) (behind-HasLength n front p k)
followed_by-HasLength m n (err e) p h k = absurd h
followed_by-HasLength m n panic p h k = absurd h

module _ {D I : Type 0} where
  unfoldable pub op_rep_devlist : List (UsbDevice D I) → OpRepDevlist D I
  op_rep_devlist devices = record {
    status = 0;
    device_count = length devices % 2 ^ 32;
    devices = devices;
  }

  unfoldable pub op_rep_import_success : UsbDevice D I → OpRepImport D I
  op_rep_import_success device = record { status = 0; device = some device }

  unfoldable pub op_rep_import_fail : OpRepImport D I
  op_rep_import_fail = record { status = 1; device = none }

  unfoldable pub devices_bytes : Bool → List (UsbDevice D I) → Outcome (List ℕ)
  devices_bytes debug [] = ok []
  devices_bytes debug (d ∷ ds) =
      followed_by (to_bytes_with_interfaces debug d) (devices_bytes debug ds)

  unfoldable pub devlist_to_bytes : Bool → OpRepDevlist D I → Outcome (List ℕ)
  devlist_to_bytes debug r =
      behind (reply_start op_rep_devlist_code r.status)
        (behind (u32_to_be_bytes r.device_count) (devices_bytes debug r.devices))

  unfoldable pub import_to_bytes : Bool → OpRepImport D I → Outcome (List ℕ)
  import_to_bytes debug r =
      behind (reply_start op_rep_import_code r.status)
        (elim r.device [ none ↦ ok [] | some d ↦ to_bytes debug d ])

  -- The path and the bus id fit, where a debug build asserts it.
  abbrev pub FitsExport : Bool → UsbDevice D I → Type 0
  FitsExport debug d = (debug && not (leb (length d.path) 256 && leb (length d.bus_id) 32)) ≡ false

  -- The capacity that `to_bytes` reserves for the devices.
  abbrev pub devices_capacity : List (UsbDevice D I) → ℕ
  devices_capacity [] = 0
  devices_capacity (d ∷ ds) = 312 + 4 * length d.interfaces + devices_capacity ds

  devices_bytes-HasLength :
      (debug : Bool) (ds : List (UsbDevice D I))
      → All (FitsExport debug) ds
      → HasLength (devices_capacity ds) (devices_bytes debug ds)
  unfolding devices_bytes
  devices_bytes-HasLength debug [] fits = refl
  devices_bytes-HasLength debug (d ∷ ds) fits =
      followed_by-HasLength (312 + 4 * length d.interfaces) (devices_capacity ds)
        (to_bytes_with_interfaces debug d) (devices_bytes debug ds)
        (to_bytes_with_interfaces_lem debug d fits.0) (devices_bytes-HasLength debug ds fits.1)

  -- If the devices fit, the reply to a request for the list is written in either build, and its length
  -- is the capacity reserved for it: 12 bytes, 312 for each device and four for each interface.
  pub devlist_to_bytes-HasLength :
      (debug : Bool) (ds : List (UsbDevice D I))
      → All (FitsExport debug) ds
      → HasLength (12 + devices_capacity ds) (devlist_to_bytes debug (op_rep_devlist ds))
  unfolding devlist_to_bytes op_rep_devlist reply_start u16_to_be_bytes u32_to_be_bytes
  devlist_to_bytes-HasLength debug ds fits =
      let n = devices_capacity ds in
      let count = u32_to_be_bytes (length ds % 2 ^ 32) in
      let front = reply_start op_rep_devlist_code 0 in
      let numbered =
        behind-HasLength n count (devices_bytes debug ds) (devices_bytes-HasLength debug ds fits) in
      let enough : length front + (length count + n) ≡ 12 + n = omega arith in
      subst (λ m. HasLength m (devlist_to_bytes debug (op_rep_devlist ds))) enough
        (behind-HasLength (length count + n) front (behind count (devices_bytes debug ds)) numbered)
