-- ===== src/Examples/PaymentCases.antt =====
-- Discounts and order totals at concrete amounts.
use alpha_shadow.Prelude.{
  ◌≡◌, ◌↔◌, refl, false, none, some, pos, ◌+ℤ◌, ◌-ℤ◌, ◌*ℤ◌, ◌<ℤ◌, quot_ℤ, rem_ℤ, List, [], ◌∷◌,
  codes, text_beq, ok,
}
use alpha_shadow.Prelude.Assoc.{get, has}
use alpha_shadow.Money.Currency.{
  iso_4217_minor_units, currency_code_pattern, is_currency_code, currency_code, minor_unit_scale,
}
use alpha_shadow.Money.Rounding.{round_quotient, divide_round_half_to_even}
use alpha_shadow.Money.Decimal.{
  split_point, is_integer_part, is_fraction_part, must_match, digits_value,
  storage_minor_unit_digits, assert_digits, non_negative_decimal_text_to_minor,
  decimal_text_to_minor,
}
use alpha_shadow.Payments.Discount.{
  percentage, ParsedDiscountRequest, ParsedDiscountCaps, DiscountStageComputation, requested_amount,
  cap_stage, compute_discount_stage, matching_exceeded, cross_exceeded, cap_requirement,
  discount_override_requirement, coupon, StackedDiscountStage, StackedDiscountStageResult,
  run_stage, apply_discount_stages,
}
use alpha_shadow.Payments.Discount.Stage.{
  IsStage, compute_discount_stage-IsStage, final_remainder, IsChain, apply_discount_stages-IsChain,
}
use alpha_shadow.Payments.Discount.Gate.{
  not_required, PassesGate, discount_override_requirement_iff,
}
use alpha_shadow.Payments.Discount.Stacking.{apply_discount_stages-override}
use alpha_shadow.Payments.Totals.{
  payable, completed, OrderFinancialSnapshot, OrderTotalsComputation, raw_discounts,
  compute_order_totals,
}
use alpha_shadow.Payments.Totals.Balance.{IsTotals, compute_order_totals-eq-ok}

abbrev ten_percent : ParsedDiscountRequest
ten_percent = record {
  kind = percentage;
  percent_dbps = some (pos 100_000);
  fixed_amount_minor = none;
}

abbrev cashier_caps : ParsedDiscountCaps
cashier_caps = record {
  max_percent_dbps = some (pos 150_000);
  max_fixed_amount_minor = some (pos 2000);
}

abbrev tenth : DiscountStageComputation
tenth = record {
  requested_minor = pos 1000;
  applied_minor = pos 1000;
  zeroes_out_subtotal = false;
  remaining_subtotal_minor = pos 9000;
}

tenth-computed : compute_discount_stage (pos 10_000) ten_percent ≡ ok tenth
unfolding compute_discount_stage requested_amount cap_stage divide_round_half_to_even round_quotient
    ◌*ℤ◌ ◌-ℤ◌ ◌+ℤ◌ quot_ℤ rem_ℤ
tenth-computed = refl

tenth-IsStage : IsStage (pos 10_000) tenth
tenth-IsStage =
    let (_, _, stage) =
      compute_discount_stage-IsStage (pos 10_000) ten_percent tenth tenth-computed in
    stage

discount_override_requirement_iff_example :
    (discount_override_requirement tenth ten_percent cashier_caps ≡ ok not_required)
    ↔ PassesGate 10_000 tenth ten_percent cashier_caps
discount_override_requirement_iff_example =
    discount_override_requirement_iff 9_999 tenth ten_percent cashier_caps tenth-IsStage

abbrev coupon_stage : StackedDiscountStage
coupon_stage = record { mechanism = coupon; request = ten_percent; caps = cashier_caps }

abbrev coupon_results : List StackedDiscountStageResult
coupon_results =
    record {
      stage = coupon_stage;
      computation = tenth;
      override_required = false;
      override_reason = none;
    }
    ∷ []

coupon_stage-applied : apply_discount_stages (pos 10_000) (coupon_stage ∷ []) ≡ ok coupon_results
unfolding apply_discount_stages run_stage compute_discount_stage requested_amount cap_stage
    divide_round_half_to_even round_quotient discount_override_requirement matching_exceeded
    cross_exceeded cap_requirement ◌*ℤ◌ ◌-ℤ◌ ◌+ℤ◌ quot_ℤ rem_ℤ
coupon_stage-applied = refl

apply_discount_stages-IsChain_example : IsChain 10_000 (coupon_stage ∷ []) coupon_results
apply_discount_stages-IsChain_example =
    apply_discount_stages-IsChain 10_000 (coupon_stage ∷ []) coupon_results coupon_stage-applied

apply_discount_stages-override_example : pos 0 <ℤ final_remainder (pos 10_000) coupon_results
apply_discount_stages-override_example =
    apply_discount_stages-override 9_999 (coupon_stage ∷ []) coupon_results coupon_stage-applied
      (refl, tt)

abbrev lunch : OrderFinancialSnapshot
lunch = record {
  branch_id = codes "b1";
  payment_status = payable;
  base_currency_code = codes "USD";
  rounding_strategy = none;
  lines =
      record { order_item_id = codes "i1"; line_amount_minor = pos 1000; tax_plan = [] }
      ∷ record { order_item_id = codes "i2"; line_amount_minor = pos 500; tax_plan = [] }
      ∷ [];
  discounts = codes "2.50" ∷ [];
  completed_payments_minor = pos 250;
  payment_statuses = completed ∷ [];
}

abbrev lunch_totals : OrderTotalsComputation
lunch_totals = record {
  subtotal_minor = pos 1500;
  discount_total_minor = pos 250;
  discounted_subtotal_minor = pos 1250;
  tax_minor = pos 0;
  total_minor = pos 1250;
  remaining_balance_minor = pos 1000;
  base_minor_digits = 2;
}

lunch-computed : compute_order_totals lunch ≡ ok lunch_totals
unfolding compute_order_totals currency_code is_currency_code currency_code_pattern has get
    minor_unit_scale storage_minor_unit_digits raw_discounts decimal_text_to_minor
    non_negative_decimal_text_to_minor assert_digits must_match split_point is_integer_part
    is_fraction_part digits_value divide_round_half_to_even round_quotient ◌*ℤ◌ ◌-ℤ◌ ◌+ℤ◌ quot_ℤ
    rem_ℤ text_beq iso_4217_minor_units
lunch-computed = refl

compute_order_totals-eq-ok_example : IsTotals lunch lunch_totals
compute_order_totals-eq-ok_example = compute_order_totals-eq-ok lunch lunch-computed
