-- ===== src/Prelude/Bits.antt =====
-- Masks in plain arithmetic: `a & (2 ** k - 1)` and `a & 2 ** k`, digit by digit.
use Prim.Native.Nat.{
  ℕ, zero, suc, ◌+◌, ◌-◌, ◌*◌, ◌/◌, ◌%◌, ◌^◌, ◌≤◌, ◌<◌, min, bit_and, digits, bit_and-bitwise,
}
use mathlib.Core.Path.{◌≡◌, ap, ◌∙◌}
use native.Mathlib.Omega.{arith}
use native.Mathlib.Nat.{pow-suc, div-add-mod, div-div-eq-div-mul}

power_pos : (k : ℕ) → 0 < 2 ^ k
power_pos zero = omega arith
power_pos (suc k) = omega (arith, pow-suc 2 k, power_pos k)

double : (k : ℕ) → 2 ^ suc k ≡ 2 * 2 ^ k
double k = omega (arith, pow-suc 2 k)

-- Division with remainder by `2 * p` in two steps.
mod_twice : (a p : ℕ) → 0 < p → a % (2 * p) ≡ a / 2 % p * 2 + a % 2
mod_twice a p h = omega (
  arith,
  div-add-mod (a / 2) p,
  div-add-mod a (2 * p),
  ap (λ t. p * t) (div-div-eq-div-mul a 2 p),
)

-- The digits of the conjunction, least one first, on `fuel` rounds.
abbrev conjunction : ℕ → ℕ → ℕ → ℕ
conjunction fuel = digits (λ b. zero) min fuel

low_digits : (fuel k a : ℕ) → a ≤ fuel → conjunction fuel a (2 ^ k - 1) ≡ a % 2 ^ k
low_digits zero k zero h = omega (arith, power_pos k)
low_digits zero k (suc a) h = absurd (omega arith)
low_digits (suc fuel) k zero h = omega (arith, power_pos k)
low_digits (suc fuel) zero (suc a) h = omega (arith, low_digits fuel 0 (suc a / 2) (omega arith))
low_digits (suc fuel) (suc k) (suc a) h =
    let mask : (2 ^ suc k - 1) / 2 ≡ 2 ^ k - 1 = omega (arith, double k, power_pos k) in
    omega (
      arith,
      double k,
      power_pos k,
      ap (λ m. conjunction fuel (suc a / 2) m) mask,
      low_digits fuel k (suc a / 2) (omega arith),
      mod_twice (suc a) (2 ^ k) (power_pos k),
      ap (λ m. suc a % m) (double k),
    )

no_digit : (m : ℕ) → 0 ≡ 0 / m % 2 * m
no_digit m = omega (arith, ap (λ q. q % 2 * m) zero_div)
  where
    zero_div : 0 / m ≡ 0
    zero_div = omega arith

one_digit : (fuel k a : ℕ) → a ≤ fuel → conjunction fuel a (2 ^ k) ≡ a / 2 ^ k % 2 * 2 ^ k
one_digit zero k zero h = no_digit (2 ^ k)
one_digit zero k (suc a) h = absurd (omega arith)
one_digit (suc fuel) k zero h = no_digit (2 ^ k)
one_digit (suc fuel) zero (suc a) h = omega (arith, low_digits fuel 0 (suc a / 2) (omega arith))
one_digit (suc fuel) (suc k) (suc a) h =
    let mask : 2 ^ suc k / 2 ≡ 2 ^ k = omega (arith, double k) in
    omega (
      arith,
      double k,
      ap (λ m. conjunction fuel (suc a / 2) m) mask,
      one_digit fuel k (suc a / 2) (omega arith),
      ap (λ q. q % 2 * 2 ^ k) (div-div-eq-div-mul (suc a) 2 (2 ^ k)),
      ap (λ m. suc a / m % 2 * 2 ^ k) (double k),
      ap (λ m. suc a / 2 ^ suc k % 2 * m) (double k),
    )

-- `a & (2 ** k - 1)`
pub bit_and_low : (k a : ℕ) → bit_and a (2 ^ k - 1) ≡ a % 2 ^ k
bit_and_low k a = bit_and-bitwise a (2 ^ k - 1) ∙ low_digits a k a (omega arith)

-- `a & 2 ** k`
pub bit_and_bit : (k a : ℕ) → bit_and a (2 ^ k) ≡ a / 2 ^ k % 2 * 2 ^ k
bit_and_bit k a = bit_and-bitwise a (2 ^ k) ∙ one_digit a k a (omega arith)

pub bit_and-one : (a : ℕ) → bit_and a 1 ≡ a % 2
bit_and-one = bit_and_low 1
