-- ===== src/Tax/Cascading/Bases.antt =====
-- What a cascade promises for one line: each tax on the amount and the exclusive taxes below it.
use alpha_shadow.Prelude.{
  ℕ, ◌+◌, ◌≡◌, ◌==◌, if◌then◌else◌, ℤ, pos, ◌+ℤ◌, ◌-ℤ◌, All, Any, Text, text_eq, some, length, List,
  [], ◌∷◌, ◌++◌, ok, sum_of,
}
use alpha_shadow.Prelude.Assoc.{get}
use alpha_shadow.Tax.Math.Invoice.{InvoiceTaxShare, allocate_invoice_tax}
use alpha_shadow.Tax.Math.{ComputedTaxAmount, calculate_tax_amount}
use alpha_shadow.Tax.Rules.{TaxRoundingStrategy, per_line, invoice_total, ResolvedTaxLine}
use alpha_shadow.Tax.Cascading.{ApplicableTax}
use alpha_shadow.Tax.Cascading.Stages.{exclusive_amount}

-- The tax stands at the place, counted from one.
abbrev pub IsAt : List ApplicableTax → ℕ → ApplicableTax → Type 0
IsAt taxes place tax =
    (before : List ApplicableTax) × (after : List ApplicableTax) × (taxes ≡ before ++ (tax ∷ after))
    × (place ≡ length before + 1)

-- The element is one of the list.
abbrev pub IsOneOf : {A : Type 0} → A → List A → Type 0
IsOneOf x = Any (λ y. y ≡ x)

-- Under `per_line` the tax of a row is that of its base; under `invoice_total` it is the share of its
-- line in an allocation to lines one of which is its own, with its base.
abbrev pub IsComputed : TaxRoundingStrategy → Text → ℤ → ResolvedTaxLine → Type 0
IsComputed per_line id base row =
    (computed : ComputedTaxAmount) × (calculate_tax_amount base row.rate_bps row.is_price_inclusive
      ≡ ok computed)
    × (row.tax_amount_minor ≡ computed.tax_amount_minor)
IsComputed invoice_total id base row =
    (shares : List InvoiceTaxShare) × (allocations : List (Text × ℕ)) × IsOneOf
      (record { id = id; amount_minor = base }) shares
    × (allocate_invoice_tax shares row.rate_bps row.is_price_inclusive ≡ ok allocations)
    × (get id allocations ≡ some row.tax_amount_minor)

-- A row of one of the taxes of a priority, on a base.
pub record IsRowOf (strategy : TaxRoundingStrategy) (id : Text) (taxes : List ApplicableTax)
    (priority : ℕ) (base : ℤ) (row : ResolvedTaxLine) : Type 0 where
  pub tax : ApplicableTax
  pub place : IsAt taxes row.computation_sequence tax
  pub of_priority : tax.category.cascade_priority ≡ priority
  pub rate_id : row.tax_rate_id ≡ tax.rate.id
  pub rate_bps : row.rate_bps ≡ tax.rate.rate_bps
  pub inclusive : row.is_price_inclusive ≡ tax.rate.is_price_inclusive_default
  pub taxable :
      row.taxable_amount_minor
      ≡ (if row.is_price_inclusive then base -ℤ pos row.tax_amount_minor else base)
  pub computed : IsComputed strategy id base row

-- How many of the taxes after the first `index` ones stand at the place and have the priority: one
-- or none.
abbrev pub count_at : ℕ → ℕ → ℕ → List ApplicableTax → ℕ
count_at priority place index [] = 0
count_at priority place index (tax ∷ rest) =
    let later = count_at priority place (index + 1) rest in
    if tax.category.cascade_priority == priority
    then (if index + 1 == place then 1 + later else later)
    else later

-- How many rows are of the tax at the place.
abbrev pub count_rows : ℕ → List ResolvedTaxLine → ℕ
count_rows place [] = 0
count_rows place (row ∷ rest) =
    let later = count_rows place rest in
    if row.computation_sequence == place then 1 + later else later

-- The rows after the priorities, from the rows before: at each priority the line gets one row
-- for each of its taxes of that priority, on its amount and the exclusive taxes of the rows before.
pub data IsCascade (strategy : TaxRoundingStrategy) (id : Text) (taxes : List ApplicableTax)
    (amount : ℤ) : List ℕ → List ResolvedTaxLine → List ResolvedTaxLine → Type 0 where
  no_more : {rows : List ResolvedTaxLine} → IsCascade strategy id taxes amount [] rows rows
  stage :
      {p : ℕ} {ps : List ℕ} {rows after : List ResolvedTaxLine} (new : List ResolvedTaxLine)
      → All (IsRowOf strategy id taxes p (amount +ℤ pos (sum_of exclusive_amount rows))) new
      → ((place : ℕ) → count_rows place new ≡ count_at p place 0 taxes)
      → IsCascade strategy id taxes amount ps (rows ++ new) after
      → IsCascade strategy id taxes amount (p ∷ ps) rows after
