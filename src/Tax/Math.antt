-- ===== src/Tax/Math.antt =====
-- shared/tax-math.ts: amounts, rates and the half-up rounding of one tax.
pub mod Rounding
pub mod Invoice
use alpha_shadow.Prelude.{
  ℕ, suc, ◌+◌, ◌*◌, ◌/◌, ◌%◌, Bool, leb, if◌then◌else◌, Num, int, non_integer, ℤ, pos, negsuc, ◌-ℤ◌,
  Result, ok, err, ◌>>=◌, validation,
}

-- The largest value of PostgreSQL's int8.
abbrev pub max_tax_minor_units : ℕ
max_tax_minor_units = 9_223_372_036_854_775_807

abbrev pub basis_point_denominator : ℕ
basis_point_denominator = 10_000

-- The check hands on the amount that it accepts, which is not negative.
unfoldable pub assert_tax_amount : ℤ → Result ℕ
assert_tax_amount (pos n) = if leb n max_tax_minor_units then ok n else err validation
assert_tax_amount (negsuc n) = err validation

unfoldable pub assert_tax_rate_bps : Num → Result ℕ
assert_tax_rate_bps (int (pos n)) = if leb n 10_000 then ok n else err validation
assert_tax_rate_bps (int (negsuc n)) = err validation
assert_tax_rate_bps non_integer = err validation

unfoldable pub half_up : ℕ → ℕ → ℕ
half_up n d = n / d + (if leb d (n % d * 2) then 1 else 0)

unfoldable pub round_tax_half_up : ℤ → ℤ → Result ℕ
round_tax_half_up (pos n) (pos (suc d)) = ok (half_up n (suc d))
round_tax_half_up _ _ = err validation

-- 10000, or 10000 and the rate where the amount includes the tax.
abbrev pub tax_denominator : ℕ → Bool → ℕ
tax_denominator bps inclusive = basis_point_denominator + (if inclusive then bps else 0)

pub record ComputedTaxAmount : Type 0 where
  pub taxable_amount_minor : ℤ
  pub tax_amount_minor : ℕ

unfoldable pub calculate_tax_amount : ℤ → Num → Bool → Result ComputedTaxAmount
calculate_tax_amount amount rate_bps inclusive = do
  base ← assert_tax_amount amount
  bps ← assert_tax_rate_bps rate_bps
  tax ← round_tax_half_up (pos (base * bps)) (pos (tax_denominator bps inclusive))
  ok (record {
    taxable_amount_minor = if inclusive then pos base -ℤ pos tax else pos base;
    tax_amount_minor = tax;
  })
