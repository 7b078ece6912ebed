-- ===== src/Payments/Totals/Balance.antt =====
-- The arithmetic of the totals of an order, and the status that follows from it.
use alpha_shadow.Prelude.{
  ◌≡◌, ◌↔◌, refl, sym, Bool, true, false, any, arith, ℤ, pos, negsuc, ◌+ℤ◌, ◌-ℤ◌, ◌≤ℤ◌, leb_ℤ, List,
  [], ◌∷◌, ok, >>=-eq-ok, ok-injective,
}
use alpha_shadow.Money.Currency.{currency_code}
use alpha_shadow.Money.Decimal.{storage_minor_unit_digits}
use alpha_shadow.Tax.Rules.{ResolvedTaxLine}
use alpha_shadow.Tax.Cascading.{calculate_cascading_taxes}
use alpha_shadow.Payments.Totals.{
  OrderFinancialSnapshot, OrderTotalsComputation, total_of, raw_discounts, has_tax_plan,
  exclusive_tax, stored_strategy, planned_tax, tax_if_planned, subtotal_of, clamp_discount,
  compute_order_totals,
}

total_of-nonneg {ℓ} :
    {A : Type ℓ} (f : A → ℤ) (xs : List A) → ((x : A) → pos 0 ≤ℤ f x) → pos 0 ≤ℤ total_of f xs
unfolding ◌+ℤ◌
total_of-nonneg f [] h = ground arith
total_of-nonneg f (x ∷ xs) h = ground (arith, h x, total_of-nonneg f xs h)

exclusive_tax-nonneg : (row : ResolvedTaxLine) → pos 0 ≤ℤ exclusive_tax row
exclusive_tax-nonneg row = ground arith

planned_tax-nonneg :
    (snapshot : OrderFinancialSnapshot) (discount : ℤ) {tax : ℤ}
    → planned_tax snapshot discount ≡ ok tax
    → pos 0 ≤ℤ tax
unfolding planned_tax
planned_tax-nonneg snapshot discount h =
    let (strategy, _, h1) = >>=-eq-ok (stored_strategy snapshot.rounding_strategy) _ h in
    let (resolved, _, h2) = >>=-eq-ok (calculate_cascading_taxes _ strategy) _ h1 in
    rw (← ok-injective h2) (
      total_of-nonneg (λ e. total_of exclusive_tax e.1) resolved
        (λ e. total_of-nonneg exclusive_tax e.1 exclusive_tax-nonneg))

tax_if_planned-nonneg :
    (planned : Bool) (snapshot : OrderFinancialSnapshot) (discount : ℤ) {tax : ℤ}
    → tax_if_planned planned (planned_tax snapshot discount) ≡ ok tax
    → (pos 0 ≤ℤ tax) × (planned ≡ false → tax ≡ pos 0)
tax_if_planned-nonneg true snapshot discount h = (planned_tax-nonneg snapshot discount h, λ e. cc)
tax_if_planned-nonneg false snapshot discount h =
    (rw (← ok-injective h) (ground arith), λ e. sym (ok-injective h))

clamp_discount-capped : (subtotal raw : ℤ) → clamp_discount subtotal raw ≤ℤ subtotal
clamp_discount-capped subtotal raw = ground arith

difference-nonneg : (a b : ℤ) → b ≤ℤ a → pos 0 ≤ℤ a -ℤ b
unfolding ◌-ℤ◌
difference-nonneg a b h = ground arith

sub-add : (a b : ℤ) → a -ℤ b +ℤ b ≡ a
unfolding ◌-ℤ◌ ◌+ℤ◌
sub-add (pos n) (pos m) = ground arith
sub-add (pos n) (negsuc m) = ground arith
sub-add (negsuc n) (pos m) = ground arith
sub-add (negsuc n) (negsuc m) = ground arith

-- What the totals of an order add up to.
pub record IsTotals (snapshot : OrderFinancialSnapshot) (t : OrderTotalsComputation) : Type 0 where
  pub subtotal : t.subtotal_minor ≡ subtotal_of snapshot
  pub capped : t.discount_total_minor ≤ℤ t.subtotal_minor
  pub discounted : t.discounted_subtotal_minor ≡ t.subtotal_minor -ℤ t.discount_total_minor
  pub not_negative : pos 0 ≤ℤ t.discounted_subtotal_minor
  pub taxed : pos 0 ≤ℤ t.tax_minor
  pub untaxed : any has_tax_plan snapshot.lines ≡ false → t.tax_minor ≡ pos 0
  pub total : t.total_minor ≡ t.discounted_subtotal_minor +ℤ t.tax_minor
  pub balance : t.remaining_balance_minor +ℤ snapshot.completed_payments_minor ≡ t.total_minor

-- Totals that are computed have the sum of the lines as subtotal, a discount of at most the
-- subtotal, a tax that is not negative and zero where no line has a tax plan, their total, and a
-- remaining balance that the completed payments complete to the total.
pub compute_order_totals-eq-ok :
    (snapshot : OrderFinancialSnapshot) {totals : OrderTotalsComputation}
    → compute_order_totals snapshot ≡ ok totals
    → IsTotals snapshot totals
unfolding compute_order_totals
compute_order_totals-eq-ok snapshot h =
    let (code, _, h1) = >>=-eq-ok (currency_code snapshot.base_currency_code) _ h in
    let (digits, _, h2) = >>=-eq-ok (storage_minor_unit_digits code) _ h1 in
    let (raw, _, h3) = >>=-eq-ok (raw_discounts digits snapshot.discounts) _ h2 in
    let subtotal : ℤ = subtotal_of snapshot in
    let discount : ℤ = clamp_discount subtotal raw in
    let (tax, planned, h4) =
      >>=-eq-ok (tax_if_planned (any has_tax_plan snapshot.lines) (planned_tax snapshot discount)) _
        h3 in
    let (taxed, untaxed) =
      tax_if_planned-nonneg (any has_tax_plan snapshot.lines) snapshot discount planned in
    rw (← ok-injective h4) (record {
      subtotal = refl;
      capped = clamp_discount-capped subtotal raw;
      discounted = refl;
      not_negative = difference-nonneg subtotal discount (clamp_discount-capped subtotal raw);
      taxed = taxed;
      untaxed = untaxed;
      total = refl;
      balance = sub-add (subtotal -ℤ discount +ℤ tax) snapshot.completed_payments_minor;
    })

pub balance-covered :
    (remaining paid_before total : ℤ)
    → remaining +ℤ paid_before ≡ total
    → (leb_ℤ remaining (pos 0) ≡ true) ↔ (total ≤ℤ paid_before)
unfolding ◌+ℤ◌
balance-covered remaining paid_before total h = rw (← h) (ground arith)
