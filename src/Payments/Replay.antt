-- ===== src/Payments/Replay.antt =====
-- application/engines/payments/payments-engine.ts: `buildReplay`, which answers a repeated key with
-- the recorded payment, and the authorization of `recordPayment`.
use alpha_shadow.Prelude.{
  ℕ, Bool, true, ◌&&◌, Option, none, some, int, ℤ, pos, eqb_ℤ, List, [], Text, text_eq, ◌===◌,
  codes, Result, ok, ◌>>=◌, ◌>>◌, guard, conflict, not_found, payment_method_unavailable,
}
use alpha_shadow.Prelude.Transactions.{some_or}
use alpha_shadow.Money.Currency.{currency_code}
use alpha_shadow.Money.Decimal.{storage_minor_unit_digits, non_negative_decimal_text_to_minor}
use alpha_shadow.Payments.Totals.{compute_order_totals}
use alpha_shadow.Payments.Records.{PaymentMethodRecord, PaymentRecord, PaymentWrite, PaymentReads}
use alpha_shadow.Payments.Collect.{RecordPaymentInput, is_foreign, names_change}

pub record RecordedPayment : Type 0 where
  pub payment : PaymentRecord
  pub order_total_minor : ℤ
  pub remaining_balance_minor : ℤ
  pub change_given_minor : ℤ

abbrev pub payments_collect_permission_key : Text
payments_collect_permission_key = codes "payments:collect"

-- The permission is checked at the branch of the order.
unfoldable pub authorize_collect : PaymentReads → RecordPaymentInput → Result (Unit {0})
authorize_collect before input = do
  snapshot ← some_or not_found (before.load_order_financial_snapshot [] input.order_id)
  before.check input.cashier_user_id payments_collect_permission_key input.token_sec_v
      snapshot.branch_id

-- The digits of a foreign cash method's own currency, and those of the base currency otherwise.
unfoldable pub tendered_digits_of : PaymentMethodRecord → ℕ → Result ℕ
tendered_digits_of method base_digits = foreign_digits (is_foreign method.kind) method.currency_code
  where
    foreign_digits : Bool → Option Text → Result ℕ
    foreign_digits true (some text) = do code ← currency_code text; storage_minor_unit_digits code
    foreign_digits _ _ = ok base_digits

abbrev pub recorded_change : Option Text → ℕ → Result ℤ
recorded_change none digits = ok (pos 0)
recorded_change (some text) digits = non_negative_decimal_text_to_minor text (int (pos digits))

unfoldable pub build_replay :
    PaymentReads → List PaymentWrite → PaymentRecord → RecordPaymentInput → Result RecordedPayment
build_replay reads w existing input = do
  guard
      (existing.order_id === input.order_id
        && existing.payment_method_id === input.payment_method_id)
      conflict
  snapshot ← some_or not_found (reads.load_order_financial_snapshot w input.order_id)
  method ← some_or payment_method_unavailable (reads.load_payment_method w input.payment_method_id)
  base ← currency_code snapshot.base_currency_code
  digits ← storage_minor_unit_digits base
  tendered_digits ← tendered_digits_of method digits
  expected ← non_negative_decimal_text_to_minor input.amount_text (int (pos tendered_digits))
  recorded ← non_negative_decimal_text_to_minor existing.amount (int (pos tendered_digits))
  change ← recorded_change existing.change_given_amount digits
  guard (eqb_ℤ expected recorded && names_change input.explicit_change_minor change) conflict
  totals ← compute_order_totals snapshot
  ok (record {
    payment = existing;
    order_total_minor = totals.total_minor;
    remaining_balance_minor = totals.remaining_balance_minor;
    change_given_minor = change;
  })
