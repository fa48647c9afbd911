-- ===== src/Normalize/Grease.antt =====
-- normalize.py, `is_grease`: the masks find the sixteen values of RFC 8701 and no others.
use foxreq.Prelude.{
  Option, none, some, if◌then◌else◌, ℕ, zero, suc, ◌+◌, ◌*◌, ◌/◌, ◌%◌, ◌<◌, ◌≡◌, ◌↔◌, refl, sym,
  subst, ◌∙◌, Bool, true, false, ◌==◌, ==_iff, Bool-cases, inl, inr, ap, arith,
}
use foxreq.Normalize.{is_grease}

-- The largest number below a bound at which a test fails.
last_failure : (ℕ → Bool) → ℕ → Option ℕ
last_failure p zero = none
last_failure p (suc n) = if p n then last_failure p n else some n

last_failure-none :
    (p : ℕ → Bool) (bound x : ℕ) → last_failure p bound ≡ none → x < bound → p x ≡ true
unfolding last_failure
last_failure-none p zero x passed below = absurd (omega arith)
last_failure-none p (suc n) x passed below = elim (Bool-cases (x == n)) [
  | inl same ↦ ap p ((==_iff x n).0 same) ∙ ground arith
  | inr other ↦ last_failure-none p n x (ground arith) (ground arith)
]

abbrev is_none : Option ℕ → Bool
is_none none = true
is_none (some x) = false

none_of : (o : Option ℕ) → is_none o ≡ true → o ≡ none
none_of o h = ground arith

abbrev passes : (ℕ → Bool) → ℕ → Bool
passes p n = is_none (last_failure p n)

passes_lem : (p : ℕ → Bool) (bound x : ℕ) → passes p bound ≡ true → x < bound → p x ≡ true
passes_lem p bound x passed below =
    last_failure-none p bound x (none_of (last_failure p bound) passed) below

abbrev same : Bool → Bool → Bool
same true b = b
same false true = false
same false false = true

-- Both sides at the number with these two bytes.
agrees : ℕ → ℕ → Bool
agrees high low = same (is_grease (high * 256 + low)) ((high * 256 + low) % 0x1010 == 0x0A0A)

same_lem : (a b : Bool) → same a b ≡ true → a ≡ b
same_lem a b h = ground arith

grease_table : passes (λ high. passes (agrees high) 256) 256 ≡ true
unfolding last_failure agrees is_grease
grease_table = refl

is_grease-mod : (value : ℕ) → value < 65536 → is_grease value ≡ (value % 0x1010 == 0x0A0A)
unfolding agrees
is_grease-mod value h = same_lem (is_grease value) _ (
    subst (λ v. same (is_grease v) (v % 0x1010 == 0x0A0A) ≡ true)
      {x = value / 256 * 256 + value % 256} (omega arith)
      (passes_lem (agrees (value / 256)) 256 (value % 256)
        (passes_lem (λ high. passes (agrees high) 256) 256 (value / 256) grease_table (omega arith))
        (omega arith)))

-- A 16-bit value is taken for GREASE exactly when it is 0x0A0A plus one of the first sixteen multiples
-- of 0x1010.
pub is_grease_iff :
    (value : ℕ)
    → value < 65536
    → (is_grease value ≡ true) ↔ ((k : ℕ) × (k < 16) × (value ≡ 0x0A0A + 0x1010 * k))
is_grease_iff value h = (
  λ e.
      let m : value % 0x1010 ≡ 0x0A0A =
        (==_iff (value % 0x1010) 0x0A0A).0 (sym (is_grease-mod value h) ∙ e) in
      (value / 0x1010, omega arith, omega arith),
  λ found.
      let (k, small, e) = found in
      is_grease-mod value h ∙ (==_iff (value % 0x1010) 0x0A0A).1 (omega arith),
)
