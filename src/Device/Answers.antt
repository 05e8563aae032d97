-- ===== src/Device/Answers.antt =====
-- What the answers of src/usbip_server/device.rs to GET_DESCRIPTOR promise.
use lusbip.Base.{
  ℕ, ◌+◌, ◌*◌, ◌/◌, ◌%◌, ◌^◌, ◌≤◌, ◌<◌, ◌≡◌, refl, sym, ap, ◌∙◌, Bool, true, false, ◌&&◌, List, [],
  ◌∷◌, append-nil, some, Text, lookup, ◌==◌, ltb, length, get_elem?, length-resize, length-take,
  Bool-cases, Option-cases, inl, inr, arith,
}
use lusbip.Protocol.Stream.{Outcome, ok, err, panic}
use lusbip.Protocol.Setup.{SetupPacket}
use lusbip.Device.Codes.{
  UsbDevice, descriptor_code, device, configuration, string, bos, device_qualifier,
}
use lusbip.Device.Descriptors.{IsConfiguration, extract_configuration_descriptors, extract-concat}
use lusbip.Device.Standard.{
  shorten, shorten_ok, encode_utf16, unit_bytes, string_descriptor, is_superspeed,
  device_descriptor, qualifier_descriptor, bos_descriptor, configuration_with,
  configuration_descriptor, interface_descriptors, raw_configuration_descriptor,
  configuration_answer, string_answer, get_descriptor,
}

-- The call returns at most `n` bytes.
abbrev pub AtMost : ℕ → Outcome (List ℕ) → Type 0
AtMost n (ok bytes) = length bytes ≤ n
AtMost n (err e) = ⊥
AtMost n panic = ⊥

length-shorten-le : (n : ℕ) (desc : List ℕ) → length desc < 2 ^ 16 → length (shorten n desc) ≤ n
unfolding shorten
length-shorten-le n desc h = elim (Bool-cases (ltb n (length desc % 2 ^ 16))) [
  | inl e ↦ rw e (omega (arith, length-resize desc n 0))
  | inr e ↦ rw e (ground arith)
]

length-unit_bytes : (us : List ℕ) → length (unit_bytes us) ≡ 2 * length us
unfolding unit_bytes
length-unit_bytes [] = omega arith
length-unit_bytes (u ∷ us) = omega (arith, length-unit_bytes us)

-- The strings that a descriptor can hold: at most 126 units.
abbrev pub FitsString : Text → Type 0
FitsString s = length (encode_utf16 s) ≤ 126

string_descriptor-fits :
    (debug : Bool) (s : Text)
    → FitsString s
    → string_descriptor debug s
      ≡ ok
          ((2 + 2 * length (encode_utf16 s)) ∷ descriptor_code string ∷ unit_bytes (encode_utf16 s))
unfolding string_descriptor
string_descriptor-fits debug s h =
    let n = length (encode_utf16 s) in
    let small : (debug && ltb 255 (2 + n % 256 * 2)) ≡ false = ground arith in
    let size : (2 + n % 256 * 2) % 256 ≡ 2 + 2 * n = omega arith in rw (small, size) refl

module _ {D I : Type 0} where
  -- Every string has a descriptor, and the configuration's total length is a 16-bit word.
  pub record FitsDescriptors (d : UsbDevice D I) : Type 0 where
    pub strings : (i : ℕ) (s : Text) → lookup i d.string_pool ≡ some s → FitsString s
    pub total : length (configuration_descriptor d) < 2 ^ 16

  length-bos : (d : UsbDevice D I) → length (bos_descriptor d) < 2 ^ 16
  unfolding bos_descriptor
  length-bos d = elim (Bool-cases (is_superspeed d)) [
    | inl e ↦ rw e (omega arith)
    | inr e ↦ rw e (omega arith)
  ]

  length-device : (d : UsbDevice D I) → length (device_descriptor d) < 2 ^ 16
  unfolding device_descriptor
  length-device d = omega arith

  length-qualifier : (d : UsbDevice D I) → length (qualifier_descriptor d) < 2 ^ 16
  unfolding qualifier_descriptor
  length-qualifier d = omega arith

  configuration_answer-le :
      (d : UsbDevice D I) (sp : SetupPacket)
      → FitsDescriptors d
      → length (configuration_answer d sp) ≤ sp.length
  unfolding configuration_answer raw_configuration_descriptor
  configuration_answer-le d sp v =
      elim (Option-cases (get_elem? d.raw_configuration_descriptors (sp.value % 256))) [
        | inl e ↦
            rw (e, configuration_answer, raw_configuration_descriptor)
              (length-shorten-le sp.length (configuration_descriptor d) v.total)
        | inr (r, e) ↦
            rw (e, configuration_answer, raw_configuration_descriptor)
              (omega (arith, length-take sp.length r))
      ]

  string_answer-AtMost :
      (debug : Bool) (d : UsbDevice D I) (sp : SetupPacket)
      → FitsDescriptors d
      → AtMost sp.length (string_answer debug d sp)
  unfolding string_answer shorten_ok
  string_answer-AtMost debug d sp v = elim (Bool-cases (sp.value % 256 == 0)) [
    | inl z ↦
        rw z (length-shorten-le sp.length (4 ∷ descriptor_code string ∷ 9 ∷ 4 ∷ []) (omega arith))
    | inr z ↦ elim (Option-cases (lookup (sp.value % 256) d.string_pool)) [
      | inl e ↦ rw (z, e, string_answer) (omega arith)
      | inr (s, e) ↦
          let h = v.strings (sp.value % 256) s e in
          let desc =
            (2 + 2 * length (encode_utf16 s))
            ∷ descriptor_code string
            ∷ unit_bytes (encode_utf16 s) in
          rw (z, e, string_answer, string_descriptor-fits debug s h)
            (length-shorten-le sp.length desc
              (omega (arith, h, length-unit_bytes (encode_utf16 s))))
    ]
  ]

  -- A device whose strings have at most 126 UTF-16 units each and whose configuration is shorter
  -- than 65536 bytes answers every GET_DESCRIPTOR request, in either build, with no more bytes than
  -- were asked for.
  pub get_descriptor-AtMost :
      (debug : Bool) (d : UsbDevice D I) (sp : SetupPacket)
      → FitsDescriptors d
      → AtMost sp.length (get_descriptor debug d sp)
  unfolding get_descriptor
  get_descriptor-AtMost debug d sp v =
      let kind = sp.value / 256 in
      elim (Bool-cases (kind == descriptor_code device)) [
        | inl e ↦ rw e (length-shorten-le sp.length (device_descriptor d) (length-device d))
        | inr e ↦ elim (Bool-cases (kind == descriptor_code bos)) [
          | inl f ↦ rw (e, f) (length-shorten-le sp.length (bos_descriptor d) (length-bos d))
          | inr f ↦ elim (Bool-cases (kind == descriptor_code configuration)) [
            | inl g ↦ rw (e, f, g) (configuration_answer-le d sp v)
            | inr g ↦ elim (Bool-cases (kind == descriptor_code string)) [
              | inl h ↦ rw (e, f, g, h) (string_answer-AtMost debug d sp v)
              | inr h ↦ elim (Bool-cases (kind == descriptor_code device_qualifier)) [
                | inl k ↦
                    rw (e, f, g, h, k)
                      (length-shorten-le sp.length (qualifier_descriptor d) (length-qualifier d))
                | inr k ↦ rw (e, f, g, h, k) (omega arith)
              ]
            ]
          ]
        ]
      ]

  configuration_descriptor-IsConfiguration :
      (d : UsbDevice D I)
      → length (configuration_descriptor d) < 2 ^ 16
      → IsConfiguration (configuration_descriptor d)
  unfolding configuration_descriptor configuration_with
  configuration_descriptor-IsConfiguration d h =
      let n = length (interface_descriptors (is_superspeed d) 0 d.interfaces) in
      (refl, (omega arith, (omega arith, omega arith)))

  -- The configuration descriptor built for a device, if it is shorter than 65536 bytes, is one that
  -- `extract_configuration_descriptors` finds, whole: its total length is its own.
  pub extract-configuration_descriptor :
      (d : UsbDevice D I)
      → length (configuration_descriptor d) < 2 ^ 16
      → extract_configuration_descriptors (configuration_descriptor d)
        ≡ configuration_descriptor d ∷ []
  extract-configuration_descriptor d h =
      ap extract_configuration_descriptors (sym (append-nil (configuration_descriptor d)))
      ∙ extract-concat (configuration_descriptor d ∷ [])
          (configuration_descriptor-IsConfiguration d h, tt)

-- In a debug build a string of 127 to 255 UTF-16 units panics where its descriptor is asked for.
pub string_descriptor-panic :
    (s : Text)
    → 126 < length (encode_utf16 s)
    → length (encode_utf16 s) < 256
    → string_descriptor true s ≡ panic
unfolding string_descriptor
string_descriptor-panic s lo hi =
    let long : ltb 255 (2 + length (encode_utf16 s) % 256 * 2) ≡ true = ground arith in rw long refl
