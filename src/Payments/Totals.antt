-- ===== src/Payments/Totals.antt =====
-- application/engines/payments/order-totals.ts, and `nextOrderPaymentStatus` of payments-engine.ts.
pub mod Balance
use alpha_shadow.Prelude.{
  ℕ, Bool, true, false, not, ◌&&◌, ◌||◌, ltb, ◌==◌, any, all, arith, if◌then◌else◌, Option, none,
  some, Num, int, ℤ, pos, ◌+ℤ◌, ◌-ℤ◌, ◌*ℤ◌, quot_ℤ, rem_ℤ, eqb_ℤ, ltb_ℤ, leb_ℤ, List, [], ◌∷◌, ◌++◌,
  map, Text, text_eq, text_ltb, ◌===◌, codes, Result, ok, err, ◌>>=◌, tax_configuration,
}
use alpha_shadow.Prelude.Assoc.{get, put}
use alpha_shadow.Prelude.Sort.{sort}
use alpha_shadow.Money.Currency.{currency_code}
use alpha_shadow.Money.Decimal.{storage_minor_unit_digits, decimal_text_to_minor}
use alpha_shadow.Tax.Rules.{
  TaxFamily, TaxRoundingStrategy, standard, TaxCategory, TaxRate, ResolvedTaxLine,
}
use alpha_shadow.Tax.Cascading.{
  ApplicableTax, TaxComputationPlan, or_zero_minor, calculate_cascading_taxes,
}

pub data OrderPaymentStatus : Type 0 where
  payable paid refund_pending order_refunded order_voided : OrderPaymentStatus

pub data PaymentStatus : Type 0 where
  completed voided refunded : PaymentStatus

pub record OrderLineTaxPlanLine : Type 0 where
  pub tax_rate_id : Text
  pub tax_family : TaxFamily
  pub cascade_priority : ℕ
  pub rate_bps : Num
  pub is_price_inclusive : Bool

pub record OrderLineForTotals : Type 0 where
  pub order_item_id : Text
  pub line_amount_minor : ℤ
  pub tax_plan : List OrderLineTaxPlanLine

-- The applied amounts stand for the rows of the discounts.
pub record OrderFinancialSnapshot : Type 0 where
  pub branch_id : Text
  pub payment_status : OrderPaymentStatus
  pub base_currency_code : Text
  pub rounding_strategy : Option TaxRoundingStrategy
  pub lines : List OrderLineForTotals
  pub discounts : List Text
  pub completed_payments_minor : ℤ
  pub payment_statuses : List PaymentStatus

pub record OrderTotalsComputation : Type 0 where
  pub subtotal_minor : ℤ
  pub discount_total_minor : ℤ
  pub discounted_subtotal_minor : ℤ
  pub tax_minor : ℤ
  pub total_minor : ℤ
  pub remaining_balance_minor : ℤ
  pub base_minor_digits : ℕ

pub record Weight : Type 0 where
  pub id : Text
  pub weight : ℤ

pub record Remainder : Type 0 where
  pub id : Text
  pub remainder : ℤ

-- The comparator is negative.
unfoldable pub remainder_before : Remainder → Remainder → Bool
remainder_before a b =
    if eqb_ℤ a.remainder b.remainder then text_ltb a.id b.id else ltb_ℤ b.remainder a.remainder

abbrev pub total_of {ℓ} : {A : Type ℓ} → (A → ℤ) → List A → ℤ
total_of f [] = pos 0
total_of f (x ∷ xs) = f x +ℤ total_of f xs

abbrev pub zero_entries : List Weight → List (Text × ℤ) → List (Text × ℤ)
zero_entries [] m = m
zero_entries (w ∷ ws) m = zero_entries ws (put w.id (pos 0) m)

abbrev pub base_of : ℤ → ℤ → Weight → ℤ
base_of total total_weight w = quot_ℤ (total *ℤ w.weight) total_weight

-- The writes of the callback of `weights.map`.
abbrev pub set_bases : ℤ → ℤ → List Weight → List (Text × ℤ) → List (Text × ℤ)
set_bases total total_weight [] m = m
set_bases total total_weight (w ∷ ws) m =
    set_bases total total_weight ws (put w.id (base_of total total_weight w) m)

abbrev pub remainder_of : ℤ → ℤ → Weight → Remainder
remainder_of total total_weight w = record {
  id = w.id;
  remainder = rem_ℤ (total *ℤ w.weight) total_weight;
}

-- The loop that hands out what is left, a unit at a time.
unfoldable pub hand_out : List Remainder → ℤ → List (Text × ℤ) → List (Text × ℤ)
hand_out [] left m = m
hand_out (r ∷ rest) left m =
    let later = hand_out rest (left -ℤ pos 1) (put r.id (or_zero_minor (get r.id m) +ℤ pos 1) m) in
    if eqb_ℤ left (pos 0) then m else later

unfoldable pub allocate_proportionally : ℤ → List Weight → List (Text × ℤ)
allocate_proportionally total weights =
    let total_weight = total_of (λ w. w.weight) weights in
    let zeros = zero_entries weights [] in
    let distributed = total_of (base_of total total_weight) weights in
    let remainders = sort remainder_before (map (remainder_of total total_weight) weights) in
    let shared =
      hand_out remainders (total -ℤ distributed) (set_bases total total_weight weights zeros) in
    if eqb_ℤ total (pos 0) || eqb_ℤ total_weight (pos 0) then zeros else shared

abbrev pub to_applicable_tax : OrderLineTaxPlanLine → ApplicableTax
to_applicable_tax line =
    let category_id = codes "rate:" ++ line.tax_rate_id in
    record {
      category = record {
        id = category_id;
        country_code = [];
        kind = standard;
        is_active = true;
        tax_family = line.tax_family;
        cascade_priority = line.cascade_priority;
      };
      rate = record {
        source = none;
        id = line.tax_rate_id;
        tax_category_id = category_id;
        rate_bps = line.rate_bps;
        is_price_inclusive_default = line.is_price_inclusive;
        effective_from = codes "1970-01-01";
        effective_to = none;
        superseded_by = none;
      };
    }

unfoldable pub raw_discounts : ℕ → List Text → Result ℤ
raw_discounts digits [] = ok (pos 0)
raw_discounts digits (amount ∷ rest) = do
  first ← decimal_text_to_minor amount (int (pos digits))
  later ← raw_discounts digits rest
  ok (first +ℤ later)

abbrev pub has_tax_plan : OrderLineForTotals → Bool
has_tax_plan line = planned line.tax_plan
  where
    planned : List OrderLineTaxPlanLine → Bool
    planned [] = false
    planned (t ∷ ts) = true

-- The lines with a tax plan, each with its amount less its share of the discount.
unfoldable pub plans_of : Text → List (Text × ℤ) → List OrderLineForTotals → List TaxComputationPlan
plans_of currency discounts [] = []
plans_of currency discounts (line ∷ rest) =
    let later = plans_of currency discounts rest in
    if has_tax_plan line
    then (record {
      order_line_id = line.order_item_id;
      amount_minor = line.line_amount_minor -ℤ or_zero_minor (get line.order_item_id discounts);
      currency_code = currency;
      taxes = map to_applicable_tax line.tax_plan;
    })
      ∷ later
    else later

abbrev pub exclusive_tax : ResolvedTaxLine → ℤ
exclusive_tax row = if row.is_price_inclusive then pos 0 else pos row.tax_amount_minor

abbrev pub exclusive_taxes : List (Text × List ResolvedTaxLine) → ℤ
exclusive_taxes = total_of (λ e. total_of exclusive_tax e.1)

abbrev pub stored_strategy : Option TaxRoundingStrategy → Result TaxRoundingStrategy
stored_strategy none = err tax_configuration
stored_strategy (some strategy) = ok strategy

abbrev pub line_weight : OrderLineForTotals → Weight
line_weight line = record { id = line.order_item_id; weight = line.line_amount_minor }

-- Step 6, for an order that has tax plans.
unfoldable pub planned_tax : OrderFinancialSnapshot → ℤ → Result ℤ
planned_tax snapshot discount = do
  strategy ← stored_strategy snapshot.rounding_strategy
  let shares : List (Text × ℤ) =
      if eqb_ℤ discount (pos 0)
      then []
      else allocate_proportionally discount (map line_weight snapshot.lines)
  resolved ←
      calculate_cascading_taxes (plans_of snapshot.base_currency_code shares snapshot.lines)
        strategy
  ok (exclusive_taxes resolved)

abbrev pub tax_if_planned : Bool → Result ℤ → Result ℤ
tax_if_planned true tax = tax
tax_if_planned false tax = ok (pos 0)

abbrev pub subtotal_of : OrderFinancialSnapshot → ℤ
subtotal_of snapshot = total_of (λ l. l.line_amount_minor) snapshot.lines

-- The sum of the discounts, clamped to the subtotal.
abbrev pub clamp_discount : ℤ → ℤ → ℤ
clamp_discount subtotal raw = if ltb_ℤ subtotal raw then subtotal else raw

unfoldable pub compute_order_totals : OrderFinancialSnapshot → Result OrderTotalsComputation
compute_order_totals snapshot = do
  code ← currency_code snapshot.base_currency_code
  digits ← storage_minor_unit_digits code
  raw ← raw_discounts digits snapshot.discounts
  let subtotal = subtotal_of snapshot
  let discount = clamp_discount subtotal raw
  tax ← tax_if_planned (any has_tax_plan snapshot.lines) (planned_tax snapshot discount)
  ok (record {
    subtotal_minor = subtotal;
    discount_total_minor = discount;
    discounted_subtotal_minor = subtotal -ℤ discount;
    tax_minor = tax;
    total_minor = subtotal -ℤ discount +ℤ tax;
    remaining_balance_minor = subtotal -ℤ discount +ℤ tax -ℤ snapshot.completed_payments_minor;
    base_minor_digits = digits;
  })

abbrev pub is_refunded : PaymentStatus → Bool
is_refunded refunded = true
is_refunded _ = false

abbrev pub non_empty : List PaymentStatus → Bool
non_empty [] = false
non_empty (s ∷ rest) = true

unfoldable pub next_order_payment_status :
    OrderTotalsComputation → OrderFinancialSnapshot → OrderPaymentStatus
next_order_payment_status totals snapshot =
    if leb_ℤ totals.remaining_balance_minor (pos 0)
    then paid
    else if non_empty snapshot.payment_statuses && all is_refunded snapshot.payment_statuses
    then order_refunded
    else payable
