-- ===== src/Examples/CollectCases.antt =====
-- A payment of one order: collected with change, replayed, voided and refunded.
use alpha_shadow.Prelude.{
  ◌≡◌, refl, true, Option, none, some, pos, ◌+ℤ◌, ◌-ℤ◌, ◌*ℤ◌, quot_ℤ, rem_ℤ, List, [], ◌∷◌, codes,
  text_beq, ok,
}
use alpha_shadow.Prelude.Assoc.{get, has}
use alpha_shadow.Prelude.Strings.{is_blank}
use alpha_shadow.Money.Currency.{
  iso_4217_minor_units, currency_code_pattern, is_currency_code, currency_code, minor_unit_scale,
}
use alpha_shadow.Money.Rounding.{round_quotient, divide_round_half_to_even}
use alpha_shadow.Money.Decimal.{
  split_point, is_integer_part, is_fraction_part, must_match, digits_value,
  storage_minor_unit_digits, assert_digits, non_negative_decimal_text_to_minor,
  decimal_text_to_minor, last_digits, to_digits, minor_to_decimal_text,
}
use alpha_shadow.Shifts.Checks.{open_shift, ShiftRecord}
use alpha_shadow.Payments.Totals.{
  payable, completed, refunded, OrderFinancialSnapshot, OrderTotalsComputation, raw_discounts,
  compute_order_totals, next_order_payment_status,
}
use alpha_shadow.Payments.Records.{
  cash, PaymentMethodRecord, PaymentRecord, SaleDeductionAggregate, PaymentWrite, PaymentReads,
  bump_order_revision, bump_shift_revision, insert_payment, post_payment_journal_entry,
  set_order_payment_status, refund_payment, insert_stock_movement,
  post_payment_journal_reversal_entry, append_audit_evidence, post_inventory_restoration,
}
use alpha_shadow.Payments.Collect.{
  RecordPaymentInput, normalize_idempotency_key, locked_open_shift, Gate, prepare_gate, base_tender,
  gross_tender, change_due, change_text, Tender, prepare_tender,
}
use alpha_shadow.Payments.Replay.{authorize_collect}
use alpha_shadow.Payments.Engine.{
  new_payment, journal_entry, recorded_payment, settle, collect, record_payment,
}
use alpha_shadow.Payments.Engine.Outcome.{PaymentOutcome, record_payment-eq-ok}
use alpha_shadow.Payments.Reversal.{to_refunded, LifecycleChange, next_status}
use alpha_shadow.Payments.Lifecycle.{RefundStock, movement}
use alpha_shadow.Payments.Reversal.Status.{IsNextStatus, next_status-eq-ok}
use alpha_shadow.Payments.Engine.Net.{IsTender, prepare_tender-IsTender}

abbrev supper : OrderFinancialSnapshot
supper = record {
  branch_id = codes "b1";
  payment_status = payable;
  base_currency_code = codes "USD";
  rounding_strategy = none;
  lines = record { order_item_id = codes "i1"; line_amount_minor = pos 1000; tax_plan = [] } ∷ [];
  discounts = [];
  completed_payments_minor = pos 0;
  payment_statuses = [];
}

abbrev till_cash : PaymentMethodRecord
till_cash = record {
  id = codes "m1";
  branch_id = none;
  kind = cash;
  currency_code = none;
  fixed_exchange_rate = none;
  clearing_account_system_purpose = codes "cash";
  is_active = true;
}

abbrev twelve_dollars : RecordPaymentInput
twelve_dollars = record {
  order_id = codes "o1";
  payment_method_id = codes "m1";
  cashier_user_id = codes "u1";
  amount_text = codes "12.00";
  explicit_change_minor = none;
  idempotency_key = some (codes "k1");
  token_sec_v = none;
}

abbrev supper_tender : Tender
supper_tender = record {
  gross = record {
    tendered_minor = pos 1200;
    tendered_digits = 2;
    exchange_rate_snapshot = none;
    gross_base_minor = pos 1200;
  };
  total_minor = pos 1000;
  remaining_before = pos 1000;
  change_minor = pos 200;
  net_base_minor = pos 1000;
  amount = codes "12.00";
  amount_in_base_currency = codes "10.00";
  change_given_amount = some (codes "2.00");
}

supper-tendered : prepare_tender supper till_cash twelve_dollars ≡ ok supper_tender
unfolding prepare_tender gross_tender base_tender change_due change_text compute_order_totals
    currency_code is_currency_code currency_code_pattern has get minor_unit_scale
    storage_minor_unit_digits raw_discounts decimal_text_to_minor non_negative_decimal_text_to_minor
    assert_digits must_match split_point is_integer_part is_fraction_part digits_value
    divide_round_half_to_even round_quotient ◌*ℤ◌ ◌+ℤ◌ ◌-ℤ◌ quot_ℤ rem_ℤ minor_to_decimal_text
    last_digits to_digits iso_4217_minor_units text_beq
supper-tendered = refl

prepare_tender-IsTender_example : IsTender supper till_cash twelve_dollars supper_tender
prepare_tender-IsTender_example =
    prepare_tender-IsTender supper till_cash twelve_dollars supper-tendered

abbrev supper_deduction : SaleDeductionAggregate
supper_deduction = record {
  order_item_id = codes "i1";
  inventory_item_id = codes "f1";
  total_deducted = codes "-1.5000";
}

abbrev cashier_shift : ShiftRecord
cashier_shift = record {
  id = codes "s1";
  branch_id = codes "b1";
  starting_float = codes "30.00";
  status = open_shift;
  counted_cash = none;
}

abbrev supper_payment : PaymentRecord
supper_payment = record {
  id = codes "p1";
  order_id = codes "o1";
  payment_method_id = codes "m1";
  amount = codes "12.00";
  amount_in_base_currency = codes "10.00";
  exchange_rate_snapshot = none;
  change_given_amount = some (codes "2.00");
  status = completed;
  shift_id = codes "s1";
  created_by = codes "u1";
  idempotency_key = some (codes "k1");
  created_at = 7;
}

-- The store of the order, with the payment that a key has already collected, if any.
abbrev supper_store : Option PaymentRecord → PaymentReads
supper_store keyed = record {
  lock_order = λ _ order. some order;
  load_order_financial_snapshot = λ _ _. some supper;
  load_payment_method = λ _ _. some till_cash;
  find_open_shift_for_cashier = λ _ _ _. some cashier_shift;
  lock_shift = λ _ _. some cashier_shift;
  load_payment = λ _ _. some supper_payment;
  load_payment_by_idempotency_key = λ _ _. keyed;
  has_active_order_items = λ _ _. true;
  inserted_payment = λ _ _. ok supper_payment;
  updated_payment = λ _ _. supper_payment;
  load_non_voided_order_item_ids = λ _ _. codes "i1" ∷ [];
  load_sale_deductions_for_order_items = λ _ _. supper_deduction ∷ [];
  load_items_with_kitchen_ticket_fired = λ _ _. [];
  load_waste_refund_keys = λ _ _. [];
  inserted_movement = λ _ _. codes "v1";
  clock = λ _. 7;
  check = λ _ _ _ _. ok tt;
}

abbrev supper_gate : Gate
supper_gate = record { snapshot = supper; method = till_cash; shift = cashier_shift }

abbrev supper_writes : List PaymentWrite
supper_writes = settle true twelve_dollars supper_payment (
    post_payment_journal_entry
      (journal_entry twelve_dollars supper_gate supper_tender supper_payment)
    ∷ insert_payment (new_payment (some (codes "k1")) twelve_dollars supper_gate supper_tender)
    ∷ bump_shift_revision (codes "s1")
    ∷ bump_order_revision (codes "o1")
    ∷ [])

supper-paid :
    record_payment (supper_store none) (supper_store none) (supper_store none) twelve_dollars []
    ≡ (ok (recorded_payment supper_tender supper_payment), supper_writes)
unfolding record_payment collect authorize_collect normalize_idempotency_key is_blank prepare_gate
    locked_open_shift prepare_tender gross_tender base_tender change_due change_text
    compute_order_totals currency_code is_currency_code currency_code_pattern has get
    minor_unit_scale storage_minor_unit_digits raw_discounts decimal_text_to_minor
    non_negative_decimal_text_to_minor assert_digits must_match split_point is_integer_part
    is_fraction_part digits_value divide_round_half_to_even round_quotient ◌*ℤ◌ ◌+ℤ◌ ◌-ℤ◌ quot_ℤ
    rem_ℤ minor_to_decimal_text last_digits to_digits iso_4217_minor_units text_beq
supper-paid = refl

record_payment-eq-ok_example :
    PaymentOutcome
      (supper_store none)
      (supper_store none)
      (supper_store none)
      twelve_dollars
      []
      supper_writes
      (recorded_payment supper_tender supper_payment)
record_payment-eq-ok_example =
    record_payment-eq-ok (supper_store none) (supper_store none) (supper_store none) twelve_dollars
      [] supper-paid

abbrev supper_totals : OrderTotalsComputation
supper_totals = record {
  subtotal_minor = pos 1000;
  discount_total_minor = pos 0;
  discounted_subtotal_minor = pos 1000;
  tax_minor = pos 0;
  total_minor = pos 1000;
  remaining_balance_minor = pos 1000;
  base_minor_digits = 2;
}

abbrev supper_refund : LifecycleChange
supper_refund = record {
  to = to_refunded;
  actor_user_id = codes "u1";
  payment_id = codes "p1";
  void_reason = none;
}

abbrev supper_stock : RefundStock
supper_stock = record {
  branch_id = codes "b1";
  order_id = codes "o1";
  actor_user_id = codes "u1";
  fired = [];
  recorded = [];
  occurred_at = 7;
}

abbrev refunded_writes : List PaymentWrite
refunded_writes =
    post_inventory_restoration (codes "v1") (codes "u1") 7
    ∷ insert_stock_movement (movement supper_stock supper_deduction (codes "1.5000"))
    ∷ set_order_payment_status (codes "o1") payable
    ∷ append_audit_evidence (codes "u1") (codes "payments.refund") (codes "payments/p1") completed
        refunded
    ∷ post_payment_journal_reversal_entry (codes "p1") (codes "u1") 7
    ∷ refund_payment (codes "p1")
    ∷ bump_shift_revision (codes "s1")
    ∷ bump_order_revision (codes "o1")
    ∷ []

abbrev restored_writes : List PaymentWrite
restored_writes =
    post_inventory_restoration (codes "v1") (codes "u1") 7
    ∷ insert_stock_movement (movement supper_stock supper_deduction (codes "1.5000"))
    ∷ []

supper-status : next_status (supper_store none) [] (codes "o1") ≡ ok payable
unfolding next_status next_order_payment_status compute_order_totals currency_code is_currency_code
    currency_code_pattern has get minor_unit_scale storage_minor_unit_digits raw_discounts ◌+ℤ◌ ◌-ℤ◌
    iso_4217_minor_units text_beq
supper-status = refl

next_status-eq-ok_example :
    (snapshot : OrderFinancialSnapshot) × (totals : OrderTotalsComputation) × (some supper
      ≡ some snapshot)
    × (compute_order_totals snapshot ≡ ok totals)
    × IsNextStatus true totals.total_minor snapshot.completed_payments_minor
        snapshot.payment_statuses payable
next_status-eq-ok_example = next_status-eq-ok (supper_store none) [] (codes "o1") supper-status
