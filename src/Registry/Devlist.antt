-- ===== src/Registry/Devlist.antt =====
-- `handle_op_req_devlist` and `handle_op_req_devlist_with_occupancy` of src/usbip_server/mod.rs: the
-- devices in the answer. The occupancy is a list of bus ids with the addresses of their clients.
use lusbip.Base.{
  ℕ, ◌≡◌, ◌≤◌, refl, ap, ◌∙◌, not, ◌||◌, List, [], ◌∷◌, ◌++◌, Option, none, some, Text, text_eq,
  if◌then◌else◌, any, retain, lookup, All, Option-cases, inl, inr, arith,
}
use lusbip.Device.Codes.{UsbDevice}
use lusbip.Device.Strings.{add_string, new_string, add_string-total}
use lusbip.Registry.Defs.{UsbIpServer, unique_devices_by_bus_id}
use lusbip.Registry.Unique.{
  holds, Distinct, holds-append, holds-retain_ne, holds_unique, unique-Distinct,
}

-- `Unknown`, and ` [occupied by `.
abbrev unknown_word : Text
unknown_word = 85 ∷ 110 ∷ 107 ∷ 110 ∷ 111 ∷ 119 ∷ 110 ∷ []

abbrev pub occupied_by_words : Text
occupied_by_words = 32 ∷ 91 ∷ 111 ∷ 99 ∷ 99 ∷ 117 ∷ 112 ∷ 105 ∷ 101 ∷ 100 ∷ 32 ∷ 98 ∷ 121 ∷ 32 ∷ []

unfoldable pub peer_of : Text → List (Text × Text) → Option Text
peer_of bus_id [] = none
peer_of bus_id ((key, peer) ∷ rest) =
    let other = peer_of bus_id rest in if text_eq key bus_id then some peer else other

unfoldable pub occupied_product : Option Text → Text → Text
occupied_product none peer = unknown_word ++ (occupied_by_words ++ (peer ++ 93 ∷ []))
occupied_product (some product) peer = product ++ (occupied_by_words ++ (peer ++ 93 ∷ []))

module _ {D I : Type 0} where
  unfoldable pub handle_op_req_devlist : UsbIpServer D I → List (UsbDevice D I)
  handle_op_req_devlist s = unique_devices_by_bus_id s.available_devices

  unfoldable pub with_product : Option (UsbDevice D I × ℕ) → Option (UsbDevice D I)
  with_product none = none
  with_product (some (d, i)) = some (record d { string_product = i })

  -- A device in use, with its client in the name of the product; `none` where its pool is full.
  unfoldable pub mark_occupied : List (Text × Text) → UsbDevice D I → Option (UsbDevice D I)
  mark_occupied occupancy d = elim (peer_of d.bus_id occupancy) [
    | none ↦ some d
    | some peer ↦
        with_product (new_string d (occupied_product (lookup d.string_product d.string_pool) peer))
  ]

  unfoldable pub replace_device : UsbDevice D I → List (UsbDevice D I) → List (UsbDevice D I)
  replace_device d devices = retain (λ x. not (text_eq x.bus_id d.bus_id)) devices ++ d ∷ []

  unfoldable pub add_used :
      List (Text × Text)
      → List (UsbDevice D I)
      → List (UsbDevice D I)
      → Option (List (UsbDevice D I))
  add_used occupancy devices [] = some devices
  add_used occupancy devices (d ∷ used) = elim (mark_occupied occupancy d) [
    | none ↦ none
    | some occupied ↦ add_used occupancy (replace_device occupied devices) used
  ]

  unfoldable pub handle_op_req_devlist_with_occupancy :
      List (Text × Text) → UsbIpServer D I → Option (List (UsbDevice D I))
  handle_op_req_devlist_with_occupancy occupancy s =
      elim (add_used occupancy s.available_devices s.used_devices) [
        | none ↦ none
        | some devices ↦ some (unique_devices_by_bus_id devices)
      ]

  -- An index of a string is free.
  pub record HasRoom (d : UsbDevice D I) : Type 0 where
    pub index : ℕ
    pub low : 1 ≤ index
    pub high : index ≤ 254
    pub is_free : lookup index d.string_pool ≡ none

  holds-replace_device :
      (b : Text) (d : UsbDevice D I) (v : List (UsbDevice D I))
      → holds b (replace_device d v) ≡ (holds b v || text_eq d.bus_id b)
  unfolding replace_device
  holds-replace_device b d v =
      holds-append b (retain (λ x. not (text_eq x.bus_id d.bus_id)) v) (d ∷ [])
      ∙ (unfold any in ground (arith, holds-retain_ne b d.bus_id v))

  marked :
      (occupancy : List (Text × Text)) (d : UsbDevice D I)
      → HasRoom d
      → (e : UsbDevice D I) × (mark_occupied occupancy d ≡ some e) × (e.bus_id ≡ d.bus_id)
  unfolding new_string with_product mark_occupied
  marked occupancy d room = elim (Option-cases (peer_of d.bus_id occupancy)) [
    | inl e ↦ (d, rw (e, mark_occupied) refl, refl)
    | inr (peer, e) ↦
        let name = occupied_product (lookup d.string_product d.string_pool) peer in
        elim (Option-cases (add_string d.string_pool name)) [
          | inl n ↦
              absurd
                (add_string-total d.string_pool name room.index room.low room.high room.is_free n)
          | inr ((pool, i), q) ↦ (
            record d { string_pool = pool; string_product = i },
            rw (e, mark_occupied) (rw (q, new_string) refl),
            refl,
          )
        ]
  ]

  add_used-holds :
      (occupancy : List (Text × Text)) (v used : List (UsbDevice D I))
      → All HasRoom used
      → (devices : List (UsbDevice D I)) × (add_used occupancy v used ≡ some devices)
        × ((b : Text) → holds b devices ≡ (holds b v || holds b used))
  unfolding add_used any
  add_used-holds occupancy v [] rooms = (v, refl, λ b. ground arith)
  add_used-holds occupancy v (d ∷ used) rooms =
      let (e, marks, same) = marked occupancy d rooms.0 in
      let (devices, adds, has) = add_used-holds occupancy (replace_device e v) used rooms.1 in
      (
        devices,
        rw (marks, add_used) adds,
        λ b.
            has b
            ∙ ap (λ x. x || holds b used) (holds-replace_device b e v)
            ∙ ap (λ x. (holds b v || text_eq x b) || holds b used) same
            ∙ ground arith,
      )

  -- If the pool of strings of every device in use has room, the list with occupancy is answered; it
  -- has each bus id that is available or in use, and no other, and none twice.
  pub handle_op_req_devlist_with_occupancy_lem :
      (occupancy : List (Text × Text)) (s : UsbIpServer D I)
      → All HasRoom s.used_devices
      → (devices : List (UsbDevice D I)) × (handle_op_req_devlist_with_occupancy occupancy s
          ≡ some devices)
        × Distinct devices
        × ((b : Text) → holds b devices ≡ (holds b s.available_devices || holds b s.used_devices))
  unfolding handle_op_req_devlist_with_occupancy
  handle_op_req_devlist_with_occupancy_lem occupancy s rooms =
      let (devices, adds, has) =
        add_used-holds occupancy s.available_devices s.used_devices rooms in
      (
        unique_devices_by_bus_id devices,
        rw (adds, handle_op_req_devlist_with_occupancy) refl,
        unique-Distinct devices,
        λ b. holds_unique b devices ∙ has b,
      )
