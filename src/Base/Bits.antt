-- ===== src/Base/Bits.antt =====
-- Two laws of the bit operations: testing the lowest bit, and joining a high and a low part.
use Prim.Native.Nat.{
  ℕ, zero, suc, ◌+◌, ◌*◌, ◌/◌, ◌%◌, ◌^◌, ◌≤◌, ◌<◌, min, max, bit_and, bit_or, digits,
  bit_and-bitwise, bit_or-bitwise,
}
use mathlib.Core.Path.{◌≡◌, refl, ap}
use native.Mathlib.Omega.{arith}
use native.Mathlib.Nat.{pow-suc}

-- No bit of 0 is common.
none_common : (fuel x : ℕ) → digits (λ b. zero) min fuel x 0 ≡ 0
none_common zero zero = refl
none_common zero (suc x) = refl
none_common (suc fuel) zero = refl
none_common (suc fuel) (suc x) = omega (arith, none_common fuel (suc x / 2))

pub bit_and-one : (x : ℕ) → bit_and x 1 ≡ x % 2
bit_and-one zero = bit_and-bitwise 0 1
bit_and-one (suc x) = omega (arith, bit_and-bitwise (suc x) 1, none_common x (suc x / 2))

-- A number whose `k` low bits are 0, joined with one that has no others.
joined :
    (k fuel x high low : ℕ)
    → x ≡ high * 2 ^ k
    → x ≤ fuel
    → low < 2 ^ k
    → digits (λ b. b) max fuel x low ≡ x + low
joined k zero zero high low e h l = omega arith
joined k (suc fuel) zero high low e h l = omega arith
joined k zero (suc x) high low e h l = absurd (omega arith)
joined zero (suc fuel) (suc x) high low e h l = omega (
  arith,
  joined zero fuel (suc x / 2) (suc x / 2) (low / 2) (omega arith) (omega arith) (omega arith),
)
joined (suc k) (suc fuel) (suc x) high low e h l =
    let two : 2 ^ suc k ≡ 2 ^ k * 2 = pow-suc 2 k in
    let twice : high * 2 ^ suc k ≡ high * 2 ^ k * 2 = omega (arith, ap (λ t. high * t) two) in
    omega (
      arith,
      joined k fuel (suc x / 2) high (low / 2) (omega (arith, e, twice)) (omega arith)
          (omega (arith, l, two)),
      e,
      twice,
    )

-- Joining a high part and a low part of `k` bits by `|` is adding them.
pub bit_or-add : (k high low : ℕ) → low < 2 ^ k → bit_or (high * 2 ^ k) low ≡ high * 2 ^ k + low
bit_or-add k high low h = omega (
  arith,
  bit_or-bitwise (high * 2 ^ k) low,
  joined k (high * 2 ^ k) (high * 2 ^ k) high low refl (omega arith) h,
)
