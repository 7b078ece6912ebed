-- ===== src/Tax/Math/Invoice.antt =====
-- shared/tax-math.ts: `allocateInvoiceTax`.
pub mod Total
use alpha_shadow.Prelude.{
  ℕ, ◌+◌, ◌*◌, ◌/◌, ◌%◌, Bool, not, ◌||◌, ◌&&◌, ltb, ◌==◌, if◌then◌else◌, Option, none, some, Num,
  ℤ, pos, ◌-ℤ◌, eqb_ℤ, List, [], ◌∷◌, Text, text_eq, text_ltb, Result, ok, err, ◌>>=◌, ◌>>◌, guard,
  validation,
}
use alpha_shadow.Prelude.Assoc.{get, has, put}
use alpha_shadow.Prelude.Sort.{sort}
use alpha_shadow.Tax.Math.{
  assert_tax_amount, assert_tax_rate_bps, round_tax_half_up, tax_denominator,
}

pub record InvoiceTaxShare : Type 0 where
  pub id : Text
  pub amount_minor : ℤ

pub record Ranked : Type 0 where
  pub id : Text
  pub remainder : ℕ

-- The variables of the function after its first loop.
pub record Floors : Type 0 where
  pub total_numerator : ℕ
  pub floors : ℕ
  pub amounts : List (Text × ℕ)
  pub ranked : List Ranked

-- The callback of `shares.map`, with the variables that it writes.
unfoldable pub floor_shares : ℕ → ℕ → List (Text × ℕ) → ℕ → ℕ → List InvoiceTaxShare → Result Floors
floor_shares bps denominator amounts total floors [] =
    ok (record { total_numerator = total; floors = floors; amounts = amounts; ranked = [] })
floor_shares bps denominator amounts total floors (share ∷ rest) = do
  amount ← assert_tax_amount share.amount_minor
  guard (not (has share.id amounts)) validation
  let numerator = amount * bps
  let floor = numerator / denominator
  later ←
      floor_shares bps denominator (put share.id floor amounts) (total + numerator) (floors + floor)
        rest
  ok (record later {
    ranked = record { id = share.id; remainder = numerator % denominator } ∷ later.ranked;
  })

-- The comparator is negative: a larger remainder first, then the smaller id.
unfoldable pub ranks_before : Ranked → Ranked → Bool
ranks_before a b =
    if a.remainder == b.remainder then text_ltb a.id b.id else ltb b.remainder a.remainder

abbrev pub or_zero : Option ℕ → ℕ
or_zero none = 0
or_zero (some n) = n

-- The loop that hands out the units that remain.
unfoldable pub distribute : List Ranked → ℤ → List (Text × ℕ) → List (Text × ℕ)
distribute [] remaining amounts = amounts
distribute (share ∷ rest) remaining amounts =
    let next =
      distribute rest (remaining -ℤ pos 1)
        (put share.id (or_zero (get share.id amounts) + 1) amounts) in
    if eqb_ℤ remaining (pos 0) then amounts else next

unfoldable pub allocate_invoice_tax : List InvoiceTaxShare → Num → Bool → Result (List (Text × ℕ))
allocate_invoice_tax shares rate_bps inclusive = do
  bps ← assert_tax_rate_bps rate_bps
  let denominator = tax_denominator bps inclusive
  f ← floor_shares bps denominator [] 0 0 shares
  rounded ← round_tax_half_up (pos f.total_numerator) (pos denominator)
  ok (distribute (sort ranks_before f.ranked) (pos rounded -ℤ pos f.floors) f.amounts)
