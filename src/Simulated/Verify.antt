-- ===== src/Simulated/Verify.antt =====
-- `verify_descriptor` of src/usbip_server/util.rs, and which bytes pass it.
use lusbip.Base.{
  ℕ, zero, suc, ◌+◌, ◌≡◌, ◌<◌, refl, Bool, true, List, [], ◌∷◌, ◌++◌, Option, none, some, ◌==◌, ltb,
  if◌then◌else◌, length, get_or, length-append, append_assoc, append-nil, subst, ==_refl, arith,
}

-- The loop over the length bytes, with fuel; `none` is a loop that goes on.
unfoldable pub walk : ℕ → List ℕ → ℕ → Option ℕ
walk zero desc offset = none
walk (suc fuel) desc offset =
    let rest = walk fuel desc (offset + get_or desc offset 0) in
    if ltb offset (length desc) then rest else some offset

-- Whether the assertion behind the loop holds.
unfoldable pub verify_descriptor : ℕ → List ℕ → Option Bool
verify_descriptor fuel desc = elim (walk fuel desc 0) [
  | none ↦ none
  | some offset ↦ some (offset == length desc)
]

-- Descriptors that begin with their length, one behind the other.
pub data AreDescriptors : List ℕ → Type 0 where
  end : AreDescriptors []
  behind :
      (n : ℕ) (body rest : List ℕ)
      → n ≡ suc (length body)
      → AreDescriptors rest
      → AreDescriptors (n ∷ (body ++ rest))

get_or-append : (xs ys : List ℕ) (y : ℕ) → get_or (xs ++ y ∷ ys) (length xs) 0 ≡ y
get_or-append [] ys y = refl
get_or-append (x ∷ xs) ys y = get_or-append xs ys y

walk-AreDescriptors :
    {desc : List ℕ} (before : List ℕ) (fuel : ℕ)
    → AreDescriptors desc
    → length desc < fuel
    → walk fuel (before ++ desc) (length before) ≡ some (length (before ++ desc))
unfolding walk
walk-AreDescriptors before zero d h = absurd (omega arith)
walk-AreDescriptors before (suc fuel) end h = rw append-nil (ground arith)
walk-AreDescriptors before (suc fuel) (behind n body rest size d) h =
    let longer = before ++ n ∷ body in
    let desc = before ++ n ∷ (body ++ rest) in
    let same : longer ++ rest ≡ desc = append_assoc before (n ∷ body) rest in
    let inside : ltb (length before) (length desc) ≡ true =
      ground (arith, length-append before (n ∷ (body ++ rest))) in
    let next : length before + get_or desc (length before) 0 ≡ length longer =
      omega (arith, get_or-append before (body ++ rest) n, length-append before (n ∷ body), size) in
    rw (inside, next)
      (subst (λ xs. walk fuel xs (length longer) ≡ some (length xs)) same
        (walk-AreDescriptors longer fuel d (omega (arith, h, length-append body rest))))

-- Descriptors that begin with their length pass, however many rounds over their number of bytes the
-- loop is given.
pub verify_descriptor-AreDescriptors :
    {desc : List ℕ} (fuel : ℕ)
    → AreDescriptors desc
    → length desc < fuel
    → verify_descriptor fuel desc ≡ some true
unfolding verify_descriptor
verify_descriptor-AreDescriptors {desc} fuel d h =
    let ends : walk fuel desc 0 ≡ some (length desc) = walk-AreDescriptors [] fuel d h in
    rw (ends, verify_descriptor) (rw (==_refl (length desc)) refl)

-- The loop never ends at a length byte that is 0.
walk-zero :
    (desc : List ℕ) (fuel offset : ℕ)
    → offset < length desc
    → get_or desc offset 0 ≡ 0
    → walk fuel desc offset ≡ none
unfolding walk
walk-zero desc zero offset h z = refl
walk-zero desc (suc fuel) offset h z =
    let stays : offset + get_or desc offset 0 ≡ offset = omega (arith, z) in
    let inside : ltb offset (length desc) ≡ true = ground (arith, h) in
    rw (inside, stays) (walk-zero desc fuel offset h z)
