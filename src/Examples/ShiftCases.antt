-- ===== src/Examples/ShiftCases.antt =====
-- A shift of one cashier, opened and closed at concrete counts.
use alpha_shadow.Prelude.{
  ◌≡◌, refl, true, none, some, int, pos, ◌+ℤ◌, ◌-ℤ◌, ◌*ℤ◌, quot_ℤ, rem_ℤ, List, [], ◌∷◌, codes,
  text_beq, ok,
}
use alpha_shadow.Prelude.Assoc.{get, has}
use alpha_shadow.Money.Currency.{
  iso_4217_minor_units, currency_code_pattern, is_currency_code, currency_code, minor_unit_scale,
}
use alpha_shadow.Money.Rounding.{round_quotient, divide_round_half_to_even}
use alpha_shadow.Money.Decimal.{
  split_point, is_integer_part, is_fraction_part, must_match, digits_value,
  storage_minor_unit_digits, assert_digits, non_negative_decimal_text_to_minor, last_digits,
  to_digits, minor_to_decimal_text,
}
use alpha_shadow.Shifts.Counts.{
  CashCountLineInput, exact, assert_native_denomination_scale, assert_quantity, line_value,
  count_from, validate_counts,
}
use alpha_shadow.Shifts.Counts.Total.{Counted, validate_counts-Counted}
use alpha_shadow.Shifts.Checks.{
  open_shift, open_count, close_count, ShiftRecord, OpenShiftInput, CloseShiftInput, ShiftWrite,
  insert_shift, insert_cash_count_details, bump_shift_revision, close_shift_row, ShiftReads,
  assert_members, prepare_open,
}
use alpha_shadow.Shifts.Engine.{rethrown, new_shift, open_shift_tx}
use alpha_shadow.Shifts.Engine.Effects.Opening.{Opened, open_shift_tx-eq-ok}

abbrev ten_dollar_bills : CashCountLineInput
ten_dollar_bills = record { denomination_value = codes "10.00"; quantity = int (pos 3) }

ten_dollar_bills-counted : validate_counts (ten_dollar_bills ∷ []) 2 ≡ ok (pos 3000)
unfolding validate_counts count_from line_value assert_quantity assert_native_denomination_scale
    split_point is_integer_part is_fraction_part must_match digits_value assert_digits
    non_negative_decimal_text_to_minor divide_round_half_to_even round_quotient ◌*ℤ◌ ◌+ℤ◌ ◌-ℤ◌
    quot_ℤ rem_ℤ
ten_dollar_bills-counted = refl

validate_counts-Counted_example : Counted 2 (ten_dollar_bills ∷ []) (pos 0) (pos 3000)
validate_counts-Counted_example =
    validate_counts-Counted (ten_dollar_bills ∷ []) 2 ten_dollar_bills-counted

abbrev till : ShiftRecord
till = record {
  id = codes "s1";
  branch_id = codes "b1";
  starting_float = codes "30.00";
  status = open_shift;
  counted_cash = none;
}

abbrev till_store : ShiftReads
till_store = record {
  load_shift = λ _ _. some till;
  load_branch_for_shift =
      λ _ _. some (record { is_active = true; base_currency_code = codes "USD" });
  user_is_active_member = λ _ _. true;
  find_any_open_shift_for_cashier = λ _ _. none;
  sum_completed_cash_payments_text = λ _ _. codes "0.00";
  load_cash_counts = λ _ _. [];
  inserted_shift = λ _ _. ok till;
  closed_shift = λ _ _. till;
  check = λ _ _ _ _. ok tt;
}

abbrev opening : OpenShiftInput
opening = record {
  branch_id = codes "b1";
  cashier_user_id = codes "u1";
  opened_by_user_id = codes "u1";
  open_verified_by_user_id = codes "u2";
  open_counts = ten_dollar_bills ∷ [];
}

abbrev opening_writes : List ShiftWrite
opening_writes =
    insert_cash_count_details (codes "s1") open_count (ten_dollar_bills ∷ [])
    ∷ insert_shift (new_shift opening (codes "30.00"))
    ∷ []

opening-runs : open_shift_tx till_store opening [] ≡ (ok till, opening_writes)
unfolding open_shift_tx prepare_open assert_members rethrown validate_counts count_from line_value
    assert_quantity assert_native_denomination_scale split_point is_integer_part is_fraction_part
    must_match digits_value assert_digits non_negative_decimal_text_to_minor
    divide_round_half_to_even round_quotient ◌*ℤ◌ ◌+ℤ◌ ◌-ℤ◌ quot_ℤ rem_ℤ currency_code
    is_currency_code currency_code_pattern has get minor_unit_scale storage_minor_unit_digits
    minor_to_decimal_text last_digits to_digits text_beq iso_4217_minor_units
opening-runs = refl

open_shift_tx-eq-ok_example : Opened till_store opening [] till opening_writes
open_shift_tx-eq-ok_example = open_shift_tx-eq-ok till_store opening [] opening-runs

abbrev closing : CloseShiftInput
closing = record {
  shift_id = codes "s1";
  closed_by_user_id = codes "u1";
  close_verified_by_user_id = codes "u2";
  close_counts = ten_dollar_bills ∷ [];
  notes = none;
}

abbrev closing_writes : List ShiftWrite
closing_writes =
    close_shift_row (codes "s1") (record {
      closed_by_id = codes "u1";
      close_verified_by_id = codes "u2";
      counted_cash = codes "30.00";
      recorded_cash_sales = codes "0.00";
      variance_kind = exact;
      notes = none;
    })
    ∷ insert_cash_count_details (codes "s1") close_count (ten_dollar_bills ∷ [])
    ∷ bump_shift_revision (codes "s1")
    ∷ []
