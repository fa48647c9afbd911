-- ===== src/Prelude/Float.antt =====
-- Python's floats as their 64 bits: sign, eleven bits of exponent, 52 bits of fraction.
use Prim.Native.Nat.{ℕ, ◌+◌, ◌-◌, ◌*◌, ◌/◌, ◌%◌, ◌^◌}
use mathlib.Core.Bool.{Bool, false, not, ◌&&◌, ◌||◌}
use foxreq.Prelude.Tests.{ltb, ◌==◌, if◌then◌else◌}

abbrev pub Float : Type 0
Float = ℕ

abbrev pub is_negative : Float → Bool
is_negative x = not (x / 2 ^ 63 % 2 == 0)

abbrev pub exponent : Float → ℕ
exponent x = x / 2 ^ 52 % 2048

abbrev pub fraction : Float → ℕ
fraction x = x % 2 ^ 52

-- `math.isfinite(x)`
abbrev pub is_finite : Float → Bool
is_finite x = not (exponent x == 2047)

abbrev pub is_zero : Float → Bool
is_zero x = exponent x == 0 && fraction x == 0

-- `x > 0` of a float that is not a NaN
abbrev pub is_positive : Float → Bool
is_positive x = not (is_negative x) && not (is_zero x)

-- `x == n` of a float and a natural number. A normal number is `(2 ** 52 + fraction) * 2 **
-- (exponent - 1075)`, a subnormal one lies strictly between two integers unless it is zero.
unfoldable pub equals_nat : Float → ℕ → Bool
equals_nat x n =
    if is_zero x
    then n == 0
    else if exponent x == 0 || (exponent x == 2047 || is_negative x)
    then false
    else if ltb (exponent x) 1075
    then 2 ^ 52 + fraction x == n * 2 ^ (1075 - exponent x)
    else (2 ^ 52 + fraction x) * 2 ^ (exponent x - 1075) == n

-- `x == y` of two floats: a NaN equals nothing, and the two zeros are equal.
abbrev pub real_equal : Float → Float → Bool
real_equal x y =
    not (exponent x == 2047 && not (fraction x == 0))
    && (not (exponent y == 2047 && not (fraction y == 0)) && (x == y || (is_zero x && is_zero y)))
