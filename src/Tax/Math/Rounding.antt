-- ===== src/Tax/Math/Rounding.antt =====
-- What the half-up rounding and `calculateTaxAmount` return.
use alpha_shadow.Prelude.{
  ℕ, zero, suc, ◌-◌, ◌+◌, ◌*◌, ◌/◌, ◌%◌, ◌≤◌, ◌<◌, ◌≡◌, refl, ◌⊎◌, inl, inr, Bool, arith,
  if◌then◌else◌, Num, int, non_integer, ℤ, pos, negsuc, ◌-ℤ◌, ok, >>=-eq-ok,
}
use native.Mathlib.Decide.{dec_le}
use alpha_shadow.Tax.Math.{
  max_tax_minor_units, assert_tax_amount, assert_tax_rate_bps, half_up, round_tax_half_up,
  tax_denominator, ComputedTaxAmount, calculate_tax_amount,
}

-- `tax` is `n / d` rounded to the nearest integer, a half up: tax - 1/2 ≤ n / d < tax + 1/2.
pub record IsHalfUp (n d tax : ℕ) : Type 0 where
  pub low : 2 * (tax * d) ≤ 2 * n + d
  pub high : 2 * n < 2 * (tax * d) + d

half_up-cases :
    (n d : ℕ)
    → (half_up n d ≡ n / d) × (n % d * 2 < d) ⊎ (half_up n d ≡ n / d + 1) × (d ≤ n % d * 2)
unfolding half_up
half_up-cases n d = ground arith

pub half_up-IsHalfUp : (n d : ℕ) → 0 < d → IsHalfUp n d (half_up n d)
half_up-IsHalfUp n d h = elim (half_up-cases n d) [
  | inl (e, k) ↦ rw e (record { low = omega arith; high = omega arith })
  | inr (e, k) ↦ rw e (record { low = omega arith; high = omega arith })
]

pub mul_mono : (x y d : ℕ) → x ≤ y → x * d ≤ y * d
mul_mono x y d h = grind arith

-- A rate of at most 100% makes a tax of at most the amount.
half_up-le : (a bps d : ℕ) → bps ≤ d → 0 < d → half_up (a * bps) d ≤ a
half_up-le a bps d h k = elim (dec_le (half_up (a * bps) d) a) [
  | yes p ↦ p
  | no p ↦ absurd (
      omega (
        arith,
        (half_up-IsHalfUp (a * bps) d k).low,
        mul_mono (a + 1) (half_up (a * bps) d) d (omega arith),
        mul_mono bps d a h,
      ))
]

taxable_lem :
    (n tax : ℕ) (inclusive : Bool)
    → tax ≤ n
    → (if inclusive then pos n -ℤ pos tax else pos n) ≡ pos (if inclusive then n - tax else n)
unfolding ◌-ℤ◌
taxable_lem n tax inclusive h = ground arith

-- What a call of `calculateTaxAmount` must return for an amount `n` and a rate of `bps`.
pub record IsTax (n bps : ℕ) (inclusive : Bool) (c : ComputedTaxAmount) : Type 0 where
  pub rounded : IsHalfUp (n * bps) (tax_denominator bps inclusive) c.tax_amount_minor
  pub at_most : c.tax_amount_minor ≤ n
  pub taxable : c.taxable_amount_minor ≡ pos (if inclusive then n - c.tax_amount_minor else n)

pub assert_tax_amount-within : (n : ℕ) → n ≤ max_tax_minor_units → assert_tax_amount (pos n) ≡ ok n
unfolding assert_tax_amount
assert_tax_amount-within n h = ground arith

pub assert_tax_amount-eq-ok :
    (a : ℤ) {n : ℕ} → assert_tax_amount a ≡ ok n → (a ≡ pos n) × (n ≤ max_tax_minor_units)
unfolding assert_tax_amount
assert_tax_amount-eq-ok a h = ground arith

pub assert_tax_rate_bps-within : (n : ℕ) → n ≤ 10_000 → assert_tax_rate_bps (int (pos n)) ≡ ok n
unfolding assert_tax_rate_bps
assert_tax_rate_bps-within n h = ground arith

pub assert_tax_rate_bps-eq-ok :
    (r : Num) {n : ℕ} → assert_tax_rate_bps r ≡ ok n → (r ≡ int (pos n)) × (n ≤ 10_000)
unfolding assert_tax_rate_bps
assert_tax_rate_bps-eq-ok non_integer h = cc
assert_tax_rate_bps-eq-ok (int (negsuc n)) h = cc
assert_tax_rate_bps-eq-ok (int (pos n)) h = ground arith

pub round_tax_half_up-pos : (n d : ℕ) → 0 < d → round_tax_half_up (pos n) (pos d) ≡ ok (half_up n d)
unfolding round_tax_half_up
round_tax_half_up-pos n zero h = elim h [ ]
round_tax_half_up-pos n (suc d) h = refl

-- Every amount of the int8 range that is not negative and every rate from 0 to 10000 basis points
-- give a tax: the amount times the rate over 10000 (over 10000 and the rate, where the amount
-- includes the tax), rounded half up once; it is at most the amount, and where the amount includes
-- it the taxable amount is what it leaves.
pub calculate_tax_amount-within :
    (n bps : ℕ) (inclusive : Bool)
    → n ≤ max_tax_minor_units
    → bps ≤ 10_000
    → (c : ComputedTaxAmount) × (calculate_tax_amount (pos n) (int (pos bps)) inclusive ≡ ok c)
      × IsTax n bps inclusive c
unfolding calculate_tax_amount
calculate_tax_amount-within n bps inclusive h k =
    let d = tax_denominator bps inclusive in
    let positive : 0 < d = omega arith in
    let covers : bps ≤ d = ground arith in
    let tax = half_up (n * bps) d in
    let le = half_up-le n bps d covers positive in
    (
      record {
        taxable_amount_minor = if inclusive then pos n -ℤ pos tax else pos n;
        tax_amount_minor = tax;
      },
      rw (assert_tax_amount-within n h)
          (rw (assert_tax_rate_bps-within bps k) (rw (round_tax_half_up-pos (n * bps) d positive))),
      record {
        rounded = half_up-IsHalfUp (n * bps) d positive;
        at_most = le;
        taxable = taxable_lem n tax inclusive le;
      },
    )

-- Any other amount or rate is refused: a result comes from an amount and a rate of those ranges.
pub calculate_tax_amount-eq-ok :
    (a : ℤ) (r : Num) (inclusive : Bool) (c : ComputedTaxAmount)
    → calculate_tax_amount a r inclusive ≡ ok c
    → (n : ℕ) × (bps : ℕ) × (a ≡ pos n)
      × (r ≡ int (pos bps))
      × (n ≤ max_tax_minor_units)
      × (bps ≤ 10_000)
unfolding calculate_tax_amount
calculate_tax_amount-eq-ok a r inclusive c h =
    let (n, an, later) = >>=-eq-ok (assert_tax_amount a) _ h in
    let (bps, rb, _) = >>=-eq-ok (assert_tax_rate_bps r) _ later in
    let (ea, ha) = assert_tax_amount-eq-ok a an in
    let (er, hr) = assert_tax_rate_bps-eq-ok r rb in (n, bps, ea, er, ha, hr)
