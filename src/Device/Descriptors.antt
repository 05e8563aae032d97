-- ===== src/Device/Descriptors.antt =====
-- `extract_configuration_descriptors` of src/usbip_server/mod.rs: the configurations in the raw
-- descriptors of a device. The bytes from the offset on stand for the offset.
use lusbip.Base.{
  ℕ, zero, suc, ◌+◌, ◌-◌, ◌*◌, ◌≤◌, ◌≡◌, inl, inr, refl, sym, ap, ◌∙◌, Bool, true, false, ◌&&◌,
  ◌||◌, List, [], ◌∷◌, ◌++◌, Option, none, some, ◌==◌, ltb, leb, if◌then◌else◌, length, take, drop,
  length-append, length-take, Option-cases, arith,
}
use lusbip.Device.Codes.{descriptor_code, configuration}

-- `u16::from_le_bytes` of the two bytes at the head; fewer are never read.
unfoldable pub total_length : List ℕ → ℕ
total_length [] = 0
total_length (lo ∷ []) = 0
total_length (lo ∷ hi ∷ more) = lo + 256 * hi

-- What the loop finds at the offset: whether it is kept as a configuration, and its size; `none`
-- where the loop ends.
unfoldable pub block : List ℕ → Option (Bool × ℕ)
block [] = none
block (descriptor_length ∷ []) = none
block (descriptor_length ∷ kind ∷ more) =
    let left = 2 + length more in
    if ltb descriptor_length 2 || ltb left descriptor_length
    then none
    else if kind == descriptor_code configuration
        && leb 9 descriptor_length
        && leb descriptor_length (total_length more)
        && leb (total_length more) left
    then some (true, total_length more)
    else some (false, descriptor_length)

unfoldable pub extract_loop : ℕ → List ℕ → List (List ℕ)
extract_loop zero bytes = []
extract_loop (suc fuel) bytes = elim (block bytes) [
  | none ↦ []
  | some (kept, size) ↦
      let rest = extract_loop fuel (drop size bytes) in
      if kept then take size bytes ∷ rest else rest
]

-- A pass takes at least two bytes, so the number of bytes is enough fuel.
unfoldable pub extract_configuration_descriptors : List ℕ → List (List ℕ)
extract_configuration_descriptors descriptors = extract_loop (length descriptors) descriptors

length-drop : (n : ℕ) (bytes : List ℕ) → length (drop n bytes) ≡ length bytes - n
length-drop zero bytes = omega arith
length-drop (suc n) [] = omega arith
length-drop (suc n) (b ∷ bs) = omega (arith, length-drop n bs)

block-bounds :
    (bytes : List ℕ) (kept : Bool) (size : ℕ)
    → block bytes ≡ some (kept, size)
    → (2 ≤ size) × (size ≤ length bytes)
unfolding block
block-bounds [] kept size h = absurd (cc h)
block-bounds (l ∷ []) kept size h = absurd (cc h)
block-bounds (l ∷ k ∷ more) kept size h = ground arith

loop_empty : (n : ℕ) → extract_loop n [] ≡ []
unfolding extract_loop block
loop_empty zero = refl
loop_empty (suc n) = refl

-- Fuel for every byte is enough: more changes nothing.
pub extract_loop-fuel :
    (n m : ℕ) (bytes : List ℕ)
    → length bytes ≤ n
    → length bytes ≤ m
    → extract_loop n bytes ≡ extract_loop m bytes
unfolding extract_loop block
extract_loop-fuel n m [] h k = loop_empty n ∙ sym (loop_empty m)
extract_loop-fuel zero m (b ∷ bs) h k = absurd (omega arith)
extract_loop-fuel (suc n) zero (b ∷ bs) h k = absurd (omega arith)
extract_loop-fuel (suc n) (suc m) (b ∷ bs) h k = elim (Option-cases (block (b ∷ bs))) [
  | inl e ↦ rw (e, extract_loop) refl
  | inr ((kept, size), e) ↦
      let q = block-bounds (b ∷ bs) kept size e in
      let d = length-drop size (b ∷ bs) in
      rw
        (
          e,
          extract_loop,
          extract_loop-fuel n m (drop size (b ∷ bs)) (omega (arith, q.0, d))
              (omega (arith, q.0, d)),
        )
        refl
]

-- A configuration: a configuration descriptor whose total length is that of all the bytes.
abbrev pub IsConfiguration : List ℕ → Type 0
IsConfiguration [] = ⊥
IsConfiguration (l ∷ []) = ⊥
IsConfiguration (l ∷ k ∷ []) = ⊥
IsConfiguration (l ∷ k ∷ lo ∷ []) = ⊥
IsConfiguration (l ∷ k ∷ lo ∷ hi ∷ rest) =
    (k ≡ 2) × ((9 ≤ l) × ((l ≤ lo + 256 * hi) × (lo + 256 * hi ≡ 4 + length rest)))

abbrev pub AreConfigurations : List (List ℕ) → Type 0
AreConfigurations [] = Unit
AreConfigurations (c ∷ cs) = IsConfiguration c × AreConfigurations cs

abbrev pub concat : List (List ℕ) → List ℕ
concat [] = []
concat (c ∷ cs) = c ++ concat cs

block-configuration : (c t : List ℕ) → IsConfiguration c → block (c ++ t) ≡ some (true, length c)
unfolding block total_length
block-configuration [] t h = absurd h
block-configuration (l ∷ []) t h = absurd h
block-configuration (l ∷ k ∷ []) t h = absurd h
block-configuration (l ∷ k ∷ lo ∷ []) t h = absurd h
block-configuration (l ∷ k ∷ lo ∷ hi ∷ rest) t h =
    ground (arith, h.0, h.1.0, h.1.1.0, h.1.1.1, length-append rest t)

-- What is kept is a configuration.
kept-IsConfiguration :
    (bytes : List ℕ) (size : ℕ)
    → block bytes ≡ some (true, size)
    → IsConfiguration (take size bytes)
unfolding block total_length
kept-IsConfiguration [] size h = absurd (cc h)
kept-IsConfiguration (l ∷ []) size h = absurd (cc h)
kept-IsConfiguration (l ∷ k ∷ []) size h = absurd (ground arith)
kept-IsConfiguration (l ∷ k ∷ lo ∷ []) size h = absurd (ground arith)
kept-IsConfiguration (l ∷ k ∷ lo ∷ hi ∷ rest) zero h = absurd (ground arith)
kept-IsConfiguration (l ∷ k ∷ lo ∷ hi ∷ rest) (suc zero) h = absurd (ground arith)
kept-IsConfiguration (l ∷ k ∷ lo ∷ hi ∷ rest) (suc (suc zero)) h = absurd (ground arith)
kept-IsConfiguration (l ∷ k ∷ lo ∷ hi ∷ rest) (suc (suc (suc zero))) h = absurd (ground arith)
kept-IsConfiguration (l ∷ k ∷ lo ∷ hi ∷ rest) (suc (suc (suc (suc s)))) h =
    let t = length-take s rest in (ground arith, (ground arith, (ground arith, ground (arith, t))))

take-length : (xs ys : List ℕ) → take (length xs) (xs ++ ys) ≡ xs
take-length [] ys = refl
take-length (x ∷ xs) ys = ap (◌∷◌ x) (take-length xs ys)

drop-length : (xs ys : List ℕ) → drop (length xs) (xs ++ ys) ≡ ys
drop-length [] ys = refl
drop-length (x ∷ xs) ys = drop-length xs ys

extract_loop-concat :
    (n : ℕ) (cs : List (List ℕ))
    → length (concat cs) ≤ n
    → AreConfigurations cs
    → extract_loop n (concat cs) ≡ cs
unfolding extract_loop
extract_loop-concat n [] h a = loop_empty n
extract_loop-concat zero ([] ∷ cs) h a = absurd a.0
extract_loop-concat zero ((x ∷ xs) ∷ cs) h a = absurd (omega arith)
extract_loop-concat (suc n) (c ∷ cs) h a =
    let e = block-configuration c (concat cs) a.0 in
    let q = block-bounds (c ++ concat cs) true (length c) e in
    rw (e, extract_loop, take-length c (concat cs), drop-length c (concat cs))
      (ap (◌∷◌ c)
        (extract_loop-concat n cs (omega (arith, h, q.0, length-append c (concat cs))) a.1))

-- Of raw descriptors that are configurations one behind the other, these configurations are
-- extracted.
pub extract-concat :
    (cs : List (List ℕ)) → AreConfigurations cs → extract_configuration_descriptors (concat cs) ≡ cs
unfolding extract_configuration_descriptors
extract-concat cs a = extract_loop-concat (length (concat cs)) cs (omega arith) a

loop-AreConfigurations : (n : ℕ) (bytes : List ℕ) → AreConfigurations (extract_loop n bytes)
unfolding extract_loop
loop-AreConfigurations zero bytes = tt
loop-AreConfigurations (suc n) bytes = elim (Option-cases (block bytes)) [
  | inl e ↦ rw (e, extract_loop) tt
  | inr ((false, size), e) ↦ rw (e, extract_loop) (loop-AreConfigurations n (drop size bytes))
  | inr ((true, size), e) ↦
      rw (e, extract_loop)
        (kept-IsConfiguration bytes size e, loop-AreConfigurations n (drop size bytes))
]

-- Whatever the raw descriptors are, everything extracted is a configuration, complete and with the
-- total length that it states.
pub extract-AreConfigurations :
    (descriptors : List ℕ) → AreConfigurations (extract_configuration_descriptors descriptors)
unfolding extract_configuration_descriptors
extract-AreConfigurations descriptors = loop-AreConfigurations (length descriptors) descriptors
