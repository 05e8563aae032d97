-- ===== src/Device/Endpoints.antt =====
-- `UsbDevice::find_ep` of src/usbip_server/device.rs: the endpoint with an address.
use lusbip.Base.{
  ℕ, ◌≡◌, inl, inr, refl, sym, Bool, true, false, ◌||◌, List, [], ◌∷◌, Option, none, some, ◌==◌,
  if◌then◌else◌, find, any, find-some, any-some, Bool-cases, Option-cases, arith,
}
use lusbip.Device.Codes.{UsbEndpoint, UsbInterface, UsbDevice}

is_address : (a b : ℕ) → (a == b) ≡ true → a ≡ b
is_address a b h = ground arith

find-none : (p : UsbEndpoint → Bool) (es : List UsbEndpoint) → find p es ≡ none → any p es ≡ false
find-none p es h = elim (Bool-cases (any p es)) [
  | inl k ↦ let (e, f) = any-some p es k in absurd (cc (h, f))
  | inr k ↦ k
]

-- There is an answer exactly when there is to be one, and its endpoint has the address.
abbrev pub Answers :
    {I : Type 0} → ℕ → Bool → Option (UsbEndpoint × Option (UsbInterface I)) → Type 0
Answers ep expected none = expected ≡ false
Answers ep expected (some (e, o)) = (expected ≡ true) × (e.address ≡ ep)

module _ {I : Type 0} where
  unfoldable pub find_in_interfaces :
      ℕ → List (UsbInterface I) → Option (UsbEndpoint × Option (UsbInterface I))
  find_in_interfaces ep [] = none
  find_in_interfaces ep (intf ∷ intfs) = elim (find (λ e. e.address == ep) intf.endpoints) [
    | some e ↦ some (e, some intf)
    | none ↦ find_in_interfaces ep intfs
  ]

  -- The endpoint of an answer has the address, and answers come where an interface has one.
  find_in_interfaces_lem :
      (ep : ℕ) (intfs : List (UsbInterface I))
      → Answers ep
          (any (λ i. any (λ e. e.address == ep) i.endpoints) intfs)
          (find_in_interfaces ep intfs)
  unfolding find_in_interfaces any
  find_in_interfaces_lem ep [] = refl
  find_in_interfaces_lem ep (intf ∷ intfs) =
      elim (Option-cases (find (λ e. e.address == ep) intf.endpoints)) [
        | inl h ↦
            rw (h, find_in_interfaces, find-none (λ e. e.address == ep) intf.endpoints h)
              (find_in_interfaces_lem ep intfs)
        | inr (e, h) ↦
            let (a, b) = find-some (λ x. x.address == ep) intf.endpoints e h in
            rw (h, find_in_interfaces, b) (refl, is_address e.address ep a)
      ]

unfoldable pub find_ep :
    {D I : Type 0} → ℕ → UsbDevice D I → Option (UsbEndpoint × Option (UsbInterface I))
find_ep ep d =
    if ep == d.ep0_in.address
    then some (d.ep0_in, none)
    else if ep == d.ep0_out.address
    then some (d.ep0_out, none)
    else find_in_interfaces ep d.interfaces

-- One of the device's endpoints has the address.
unfoldable pub has_endpoint : {D I : Type 0} → ℕ → UsbDevice D I → Bool
has_endpoint ep d =
    ep == d.ep0_in.address
    || ep == d.ep0_out.address
    || any (λ i. any (λ e. e.address == ep) i.endpoints) d.interfaces

-- An endpoint is found exactly when the device has one with the address, and it has that address.
pub find_ep_lem :
    {D I : Type 0} (ep : ℕ) (d : UsbDevice D I) → Answers ep (has_endpoint ep d) (find_ep ep d)
unfolding find_ep has_endpoint
find_ep_lem ep d = elim (Bool-cases (ep == d.ep0_in.address)) [
  | inl h ↦ rw h (refl, sym (is_address ep d.ep0_in.address h))
  | inr h ↦ elim (Bool-cases (ep == d.ep0_out.address)) [
    | inl k ↦ rw (h, k) (refl, sym (is_address ep d.ep0_out.address k))
    | inr k ↦ rw (h, k) (find_in_interfaces_lem ep d.interfaces)
  ]
]
