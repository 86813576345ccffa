-- ===== src/Base/Float.antt =====
-- Go's float64, for finite numbers that are not negative. Each is a multiple of 2 ^ -1074, and stands here
-- for the number of these units; an operation rounds the exact result to the nearest float64, of two
-- as near to the even one. Overflow does not come up.
use Prim.Native.Nat.{ℕ, zero, suc, ◌+◌, ◌-◌, ◌*◌, ◌/◌, ◌%◌, ◌^◌, ◌≤◌, ◌<◌}
use mathlib.Core.Bool.{true, false, ◌||◌, ◌&&◌}
use mathlib.Core.Path.{◌≡◌, refl}
use mathlib.Core.Logic.{inl, inr}
use native.Mathlib.Omega.{arith}
use mirage_chaff.Base.Tests.{ltb, ◌==◌, if◌then◌else◌, Bool-cases}

abbrev pub Float : Type 0
Float = ℕ

-- The units in 1.
abbrev pub one : Float
one = 2 ^ 1074

-- 2 ^ 53: a float64 has 53 binary digits.
abbrev pub mantissa_end : ℕ
mantissa_end = 9_007_199_254_740_992

-- How many binary digits a number has above 53.
unfoldable pub exponent : ℕ → ℕ → ℕ
exponent zero n = 0
exponent (suc fuel) n = elim (ltb n mantissa_end) [ true ↦ 0 | false ↦ suc (exponent fuel (n / 2)) ]

-- The quotient rounded to the nearest natural number.
unfoldable pub nearest : ℕ → ℕ → ℕ
nearest num den =
    let q = num / den in
    let r = num % den in if ltb den (2 * r) || ((2 * r == den) && (q % 2 == 1)) then q + 1 else q

-- The float64 nearest to a quotient of units.
unfoldable pub rounded : ℕ → ℕ → Float
rounded num den =
    let q = num / den in let step = 2 ^ exponent q q in nearest num (den * step) * step

unfoldable pub of_nat : ℕ → Float
of_nat n = rounded (n * one) 1

unfoldable pub add : Float → Float → Float
add x y = rounded (x + y) 1

-- For a difference that is not negative.
unfoldable pub sub : Float → Float → Float
sub x y = rounded (x - y) 1

unfoldable pub mul : Float → Float → Float
mul x y = rounded (x * y) one

unfoldable pub div : Float → Float → Float
div x y = rounded (x * one) y

-- A number halved so many times.
unfoldable pub halved : ℕ → ℕ → ℕ
halved zero n = n
halved (suc e) n = halved e (n / 2)

-- The number itself is fuel enough for its exponent.
pub exponent-fits : (fuel n : ℕ) → n ≤ fuel → halved (exponent fuel n) n < mantissa_end
unfolding exponent halved
exponent-fits zero n h = omega (arith, h)
exponent-fits (suc fuel) n h = elim (Bool-cases (ltb n mantissa_end)) [
  | inl y ↦ rw (exponent, y) (ground (arith, y))
  | inr y ↦ rw (exponent, y) (exponent-fits fuel (n / 2) (omega (arith, h)))
]

-- 0.1, and 0.1 + 0.2, which is not 0.3.
tenth : div (of_nat 1) (of_nat 10) ≡ 7_205_759_403_792_794 * 2 ^ 1018
unfolding div of_nat rounded nearest exponent
tenth = refl

sum_of_tenths :
    add (div (of_nat 1) (of_nat 10)) (div (of_nat 2) (of_nat 10)) ≡ 5_404_319_552_844_596 * 2 ^ 1020
unfolding div add of_nat rounded nearest exponent
sum_of_tenths = refl
