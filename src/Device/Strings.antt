-- ===== src/Device/Strings.antt =====
-- The string pool of src/usbip_server/device.rs: names of the device by index.
use lusbip.Base.{
  ℕ, zero, suc, ◌+◌, ◌≡◌, ◌≢◌, ◌<◌, ◌≤◌, List, Option, none, some, ◌==◌, ◌!=◌, if◌then◌else◌, Text,
  lookup, insert, remove, lookup-insert, arith,
}
use lusbip.Device.Codes.{UsbDevice}

-- The loop of `new_string` over the indices of a `u8` from 1: the first one that is not taken.
-- Yielding 255 would overflow the counter, which panics or wraps to index 0 by the build, so `none`
-- stands for a pool in which 1 to 254 are taken.
unfoldable pub free_index : ℕ → ℕ → List (ℕ × Text) → Option ℕ
free_index zero i pool = none
free_index (suc fuel) i pool = elim (lookup i pool) [
  | none ↦ some i
  | some taken ↦ free_index fuel (i + 1) pool
]

-- `(index != 0).then(|| pool.remove(&index)).flatten()`: the pool left, and the old value.
unfoldable pub take_string : ℕ → List (ℕ × Text) → List (ℕ × Text) × Option Text
take_string i pool = if i != 0 then (remove i pool, lookup i pool) else (pool, none)

-- `new_string` on the pool alone.
unfoldable pub add_string : List (ℕ × Text) → Text → Option (List (ℕ × Text) × ℕ)
add_string pool s = elim (free_index 254 1 pool) [
  | none ↦ none
  | some i ↦ some (insert i s pool, i)
]

module _ {D I : Type 0} where
  unfoldable pub new_string : UsbDevice D I → Text → Option (UsbDevice D I × ℕ)
  new_string d s = elim (add_string d.string_pool s) [
    | none ↦ none
    | some (pool, i) ↦ some (record d { string_pool = pool }, i)
  ]

  unfoldable pub set_configuration_name :
      UsbDevice D I → Text → Option (UsbDevice D I × Option Text)
  set_configuration_name d name =
      let (pool, old) = take_string d.string_configuration d.string_pool in
      elim (new_string (record d { string_pool = pool }) name) [
        | none ↦ none
        | some (e, i) ↦ some (record e { string_configuration = i }, old)
      ]

  unfoldable pub unset_configuration_name : UsbDevice D I → UsbDevice D I × Option Text
  unset_configuration_name d =
      let (pool, old) = take_string d.string_configuration d.string_pool in
      (record d { string_pool = pool; string_configuration = 0 }, old)

  unfoldable pub set_serial_number : UsbDevice D I → Text → Option (UsbDevice D I × Option Text)
  set_serial_number d name =
      let (pool, old) = take_string d.string_serial d.string_pool in
      elim (new_string (record d { string_pool = pool }) name) [
        | none ↦ none
        | some (e, i) ↦ some (record e { string_serial = i }, old)
      ]

  unfoldable pub unset_serial_number : UsbDevice D I → UsbDevice D I × Option Text
  unset_serial_number d =
      let (pool, old) = take_string d.string_serial d.string_pool in
      (record d { string_pool = pool; string_serial = 0 }, old)

  unfoldable pub set_product_name : UsbDevice D I → Text → Option (UsbDevice D I × Option Text)
  set_product_name d name =
      let (pool, old) = take_string d.string_product d.string_pool in
      elim (new_string (record d { string_pool = pool }) name) [
        | none ↦ none
        | some (e, i) ↦ some (record e { string_product = i }, old)
      ]

  unfoldable pub unset_product_name : UsbDevice D I → UsbDevice D I × Option Text
  unset_product_name d =
      let (pool, old) = take_string d.string_product d.string_pool in
      (record d { string_pool = pool; string_product = 0 }, old)

  unfoldable pub set_manufacturer_name : UsbDevice D I → Text → Option (UsbDevice D I × Option Text)
  set_manufacturer_name d name =
      let (pool, old) = take_string d.string_manufacturer d.string_pool in
      elim (new_string (record d { string_pool = pool }) name) [
        | none ↦ none
        | some (e, i) ↦ some (record e { string_manufacturer = i }, old)
      ]

  unfoldable pub unset_manufacturer_name : UsbDevice D I → UsbDevice D I × Option Text
  unset_manufacturer_name d =
      let (pool, old) = take_string d.string_manufacturer d.string_pool in
      (record d { string_pool = pool; string_manufacturer = 0 }, old)

free_index-free :
    (fuel i : ℕ) (pool : List (ℕ × Text)) (j : ℕ)
    → free_index fuel i pool ≡ some j
    → (lookup j pool ≡ none) × (i ≤ j) × (j < i + fuel)
unfolding free_index
free_index-free zero i pool j e = cc
free_index-free (suc fuel) i pool j e = ground (arith, free_index-free fuel (i + 1) pool j)

-- The lowest free index is taken: every index before it is in use.
free_index-lowest :
    (fuel i : ℕ) (pool : List (ℕ × Text)) (j k : ℕ)
    → free_index fuel i pool ≡ some j
    → i ≤ k
    → k < j
    → lookup k pool ≢ none
unfolding free_index
free_index-lowest zero i pool j k e h l q = cc
free_index-lowest (suc fuel) i pool j k e h l q =
    ground (arith, free_index-lowest fuel (i + 1) pool j k)

-- A new string takes a free index from 1 to 254, and every other index keeps its string.
pub add_string_lem :
    (pool p : List (ℕ × Text)) (s : Text) (i k : ℕ)
    → add_string pool s ≡ some (p, i)
    → (lookup i pool ≡ none)
      × (1 ≤ i)
      × (i ≤ 254)
      × (lookup k p ≡ (if i == k then some s else lookup k pool))
unfolding add_string
add_string_lem pool p s i k h =
    ground (arith, free_index-free 254 1 pool i, lookup-insert i k s pool)

-- A new string takes the lowest free index: all from 1 up to it hold strings.
pub add_string-lowest :
    (pool p : List (ℕ × Text)) (s : Text) (i k : ℕ)
    → add_string pool s ≡ some (p, i)
    → 1 ≤ k
    → k < i
    → lookup k pool ≢ none
unfolding add_string
add_string-lowest pool p s i k h lo hi q = ground (arith, free_index-lowest 254 1 pool i k)

-- A free index within reach of the fuel is found.
free_index-total :
    (fuel i : ℕ) (pool : List (ℕ × Text)) (k : ℕ)
    → i ≤ k
    → k < i + fuel
    → lookup k pool ≡ none
    → free_index fuel i pool ≢ none
unfolding free_index
free_index-total zero i pool k h l e q = absurd (omega arith)
free_index-total (suc fuel) i pool k h l e q = ground (arith, free_index-total fuel (i + 1) pool k)

-- While one of the indices 1 to 254 is free, a new string finds a place.
pub add_string-total :
    (pool : List (ℕ × Text)) (s : Text) (k : ℕ)
    → 1 ≤ k
    → k ≤ 254
    → lookup k pool ≡ none
    → add_string pool s ≢ none
unfolding add_string
add_string-total pool s k lo hi e q = ground (arith, free_index-total 254 1 pool k)
