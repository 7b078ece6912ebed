-- ===== src/Payments/Engine/Repeat.antt =====
-- A payment that is collected again with its key is replayed.
use alpha_shadow.Prelude.{◌≡◌, ℕ, ◌≤◌, some, int, ℤ, pos, List, Text, text_eq, ok}
use alpha_shadow.Money.Decimal.{max_scale, non_negative_decimal_text_to_minor}
use alpha_shadow.Payments.Totals.{
  OrderFinancialSnapshot, OrderTotalsComputation, compute_order_totals,
}
use alpha_shadow.Payments.Records.{PaymentMethodRecord, PaymentRecord, PaymentWrite, PaymentReads}
use alpha_shadow.Payments.Collect.{RecordPaymentInput, GrossTender, Tender}
use alpha_shadow.Payments.Replay.{RecordedPayment, tendered_digits_of}

-- The digits and the amount of a tender: the replay finds the same digits, and reads the amount.
record IsGross (method : PaymentMethodRecord) (base_digits : ℕ) (text : Text) (g : GrossTender)
    : Type 0 where
  same_digits : tendered_digits_of method base_digits ≡ ok g.tendered_digits
  is_amount :
      non_negative_decimal_text_to_minor text (int (pos g.tendered_digits)) ≡ ok g.tendered_minor
  small : g.tendered_digits ≤ max_scale

-- A store in which the payment has been recorded, and its order and method are still there: the
-- currency of the order is the same, and its totals can be computed.
pub record Recorded (reads : PaymentReads) (w : List PaymentWrite) (input : RecordPaymentInput)
    (snapshot : OrderFinancialSnapshot) (method : PaymentMethodRecord) (tender : Tender)
    (payment : PaymentRecord) (totals : OrderTotalsComputation) : Type 0 where
  pub later : OrderFinancialSnapshot
  pub same_order : payment.order_id ≡ input.order_id
  pub same_method : payment.payment_method_id ≡ input.payment_method_id
  pub same_amount : payment.amount ≡ tender.amount
  pub same_change : payment.change_given_amount ≡ tender.change_given_amount
  pub loaded : reads.load_order_financial_snapshot w input.order_id ≡ some later
  pub same_currency : later.base_currency_code ≡ snapshot.base_currency_code
  pub is_method : reads.load_payment_method w input.payment_method_id ≡ some method
  pub computed : compute_order_totals later ≡ ok totals

-- What the replay of a payment answers: the payment and its change, with the totals of now.
abbrev pub replay_result : PaymentRecord → OrderTotalsComputation → ℤ → RecordedPayment
replay_result payment totals change = record {
  payment = payment;
  order_total_minor = totals.total_minor;
  remaining_balance_minor = totals.remaining_balance_minor;
  change_given_minor = change;
}
