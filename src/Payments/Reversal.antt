-- ===== src/Payments/Reversal.antt =====
-- application/engines/payments/payments-engine.ts: what `lifecycleChange` checks before it writes,
-- and the status that the order gets.
pub mod Status
use alpha_shadow.Prelude.{
  ℕ, int, pos, neg_ℤ, Bool, true, false, if◌then◌else◌, Option, some, List, [], Text, codes, Result,
  ok, ◌>>=◌, ◌>>◌, guard, not_found, payment_status_transition,
}
use alpha_shadow.Prelude.Transactions.{some_or}
use alpha_shadow.Money.Decimal.{decimal_text_to_minor, minor_to_decimal_text}
use alpha_shadow.Shifts.Checks.{ShiftRecord}
use alpha_shadow.Payments.Totals.{
  PaymentStatus, completed, voided, refunded, OrderPaymentStatus, order_voided,
  OrderFinancialSnapshot, compute_order_totals, next_order_payment_status,
}
use alpha_shadow.Payments.Records.{
  SaleDeductionAggregate, PaymentRecord, PaymentWrite, PaymentReads,
}
use alpha_shadow.Payments.Collect.{locked_open_shift}

-- `'voided' | 'refunded'`, the statuses that a completed payment can change to.
pub data Reversal : Type 0 where
  to_voided to_refunded : Reversal

abbrev pub status_of : Reversal → PaymentStatus
status_of to_voided = voided
status_of to_refunded = refunded

abbrev pub permission_of : Reversal → Text
permission_of to_voided = codes "payments:void"
permission_of to_refunded = codes "payments:refund"

abbrev pub is_completed : PaymentStatus → Bool
is_completed completed = true
is_completed voided = false
is_completed refunded = false

abbrev pub check_completed : PaymentRecord → Result (Unit {0})
check_completed payment = guard (is_completed payment.status) payment_status_transition

-- The arguments of `lifecycleChange`.
pub record LifecycleChange : Type 0 where
  pub to : Reversal
  pub actor_user_id : Text
  pub payment_id : Text
  pub void_reason : Option Text

-- The payment as it was before the lock.
unfoldable pub seen_completed : PaymentReads → Text → Result PaymentRecord
seen_completed seen payment_id = do
  existing ← some_or not_found (seen.load_payment [] payment_id)
  check_completed existing
  ok existing

-- The first transaction of `voidPayment` and of `refundPayment`, and the authorization at the
-- branch of the order.
unfoldable pub authorize_reversal : PaymentReads → LifecycleChange → Text → Result (Unit {0})
authorize_reversal before change token = do
  payment ← some_or not_found (before.load_payment [] change.payment_id)
  snapshot ← some_or not_found (before.load_order_financial_snapshot [] payment.order_id)
  before.check change.actor_user_id (permission_of change.to) (some token) snapshot.branch_id

pub record ReversalGate : Type 0 where
  pub fresh : PaymentRecord
  pub pre : OrderFinancialSnapshot
  pub shift : ShiftRecord

module _ (reads : PaymentReads) (w : List PaymentWrite) where
  -- The payment as it is under the lock, and the open shift of the actor at the branch of the order.
  unfoldable pub prepare_reversal : LifecycleChange → Text → Result ReversalGate
  prepare_reversal change order_id = do
    fresh ← some_or not_found (reads.load_payment w change.payment_id)
    check_completed fresh
    pre ← some_or not_found (reads.load_order_financial_snapshot w order_id)
    shift ← locked_open_shift reads w change.actor_user_id pre.branch_id
    ok (record { fresh = fresh; pre = pre; shift = shift })

  -- An order without active lines stays voided.
  unfoldable pub next_status : Text → Result OrderPaymentStatus
  next_status order_id = do
    snapshot ← some_or not_found (reads.load_order_financial_snapshot w order_id)
    totals ← compute_order_totals snapshot
    ok (
        if reads.has_active_order_items w order_id
        then next_order_payment_status totals snapshot
        else order_voided)

abbrev pub stock_quantity_scale : ℕ
stock_quantity_scale = 4

-- What a deduction of a line gives back, as text: its negation, or nothing.
unfoldable pub restored_quantity : Bool → SaleDeductionAggregate → Result Text
restored_quantity true deduction = do
  deducted ← decimal_text_to_minor deduction.total_deducted (int (pos stock_quantity_scale))
  minor_to_decimal_text (neg_ℤ deducted) (int (pos stock_quantity_scale))
restored_quantity false deduction = minor_to_decimal_text (pos 0) (int (pos stock_quantity_scale))
