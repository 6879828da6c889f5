-- ===== src/Base/Bits.antt =====
-- Tables: a test that holds at each number below a limit. And the low bits of a number.
use Prim.Native.Nat.{ℕ, zero, suc, ◌/◌, ◌%◌, ◌<◌, min, bit_and, digits, bit_and-bitwise}
use mathlib.Core.Path.{◌≡◌, refl}
use mathlib.Core.Bool.{Bool, true, false}
use native.Mathlib.Omega.{arith}
use native.Mathlib.Decide.{ℕ_discrete}
use esp32_ipc.Base.Tests.{◌==◌, ==_iff, if◌then◌else◌}

unfoldable pub holds_below : (ℕ → Bool) → ℕ → Bool
holds_below test zero = true
holds_below test (suc n) = if test n then holds_below test n else false

pub holds_at :
    (test : ℕ → Bool) (limit i : ℕ) → i < limit → holds_below test limit ≡ true → test i ≡ true
unfolding holds_below
holds_at test zero i small all = absurd (omega arith)
holds_at test (suc limit) i small all = elim (ℕ_discrete i limit) [
  | yes top ↦ rw top (ground arith)
  | no lower ↦ ground (arith, holds_at test limit i)
]

-- Nothing is left of a number under an empty mask.
digits_empty_mask : (fuel a : ℕ) → digits (λ b. zero) min fuel a 0 ≡ 0
digits_empty_mask zero zero = refl
digits_empty_mask zero (suc a) = refl
digits_empty_mask (suc fuel) zero = refl
digits_empty_mask (suc fuel) (suc a) = omega (arith, digits_empty_mask fuel (suc a / 2))

-- `x & 1`
pub bit_and-one : (x : ℕ) → bit_and x 1 ≡ x % 2
bit_and-one zero = refl
bit_and-one (suc x) = omega (arith, bit_and-bitwise (suc x) 1, digits_empty_mask x (suc x / 2))

nibble_table : holds_below (λ x. bit_and x 15 == x % 16) 4096 ≡ true
unfolding holds_below
nibble_table = refl

-- `x & 0x0F`, for the shifted magnitudes of a 16-bit sample.
pub bit_and_fifteen : (x : ℕ) → x < 4096 → bit_and x 15 ≡ x % 16
bit_and_fifteen x small =
    (==_iff (bit_and x 15) (x % 16)).0
      (holds_at (λ y. bit_and y 15 == y % 16) 4096 x small nibble_table)
