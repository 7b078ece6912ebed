-- ===== src/Payments/Collect.antt =====
-- application/engines/payments/payments-engine.ts: what a payment tenders, the change, and the net
-- amount that counts for the order.
use alpha_shadow.Prelude.{
  ℕ, Bool, true, false, not, ◌&&◌, leb, if◌then◌else◌, Option, none, some, int, ℤ, pos, ◌-ℤ◌, eqb_ℤ,
  ltb_ℤ, length, List, Text, text_eq, ◌===◌, Result, ok, err, ◌>>=◌, ◌>>◌, guard, validation,
  not_found, payment_exceeds_balance, payment_method_unavailable, cashier_shift_required,
}
use alpha_shadow.Prelude.Strings.{is_blank}
use alpha_shadow.Prelude.Transactions.{some_or}
use alpha_shadow.Money.Currency.{CurrencyCode, currency_code}
use alpha_shadow.Money.Amount.{money}
use alpha_shadow.Money.Decimal.{
  storage_minor_unit_digits, non_negative_decimal_text_to_minor, minor_to_decimal_text,
}
use alpha_shadow.Money.Exchange.{convert_money_at_rate}
use alpha_shadow.Shifts.Checks.{ShiftRecord, is_open}
use alpha_shadow.Payments.Totals.{
  OrderPaymentStatus, payable, paid, refund_pending, order_refunded, order_voided,
  OrderFinancialSnapshot, compute_order_totals,
}
use alpha_shadow.Payments.Records.{
  PaymentMethodType, cash, foreign_currency_cash, PaymentMethodRecord, PaymentWrite, PaymentReads,
}

pub record RecordPaymentInput : Type 0 where
  pub order_id : Text
  pub payment_method_id : Text
  pub cashier_user_id : Text
  pub amount_text : Text
  pub explicit_change_minor : Option ℤ
  pub idempotency_key : Option Text
  pub token_sec_v : Option Text

abbrev pub idempotency_key_max_length : ℕ
idempotency_key_max_length = 128

unfoldable pub normalize_idempotency_key : Option Text → Result (Option Text)
normalize_idempotency_key none = ok none
normalize_idempotency_key (some key) = do
  guard (not (is_blank key)) validation
  guard (leb (length key) idempotency_key_max_length) validation
  ok (some key)

abbrev pub takes_payment : OrderPaymentStatus → Bool
takes_payment payable = true
takes_payment paid = true
takes_payment refund_pending = false
takes_payment order_refunded = false
takes_payment order_voided = false

abbrev pub is_foreign : PaymentMethodType → Bool
is_foreign foreign_currency_cash = true
is_foreign _ = false

abbrev pub is_cash_like : PaymentMethodType → Bool
is_cash_like cash = true
is_cash_like foreign_currency_cash = true
is_cash_like _ = false

-- `method.branchId === null` or the branch itself.
abbrev pub serves_branch : Option Text → Text → Bool
serves_branch none branch = true
serves_branch (some b) branch = b === branch

abbrev pub usable_method : Option PaymentMethodRecord → Text → Result PaymentMethodRecord
usable_method none branch = err payment_method_unavailable
usable_method (some method) branch =
    if method.is_active && serves_branch method.branch_id branch
    then ok method
    else err payment_method_unavailable

abbrev pub standing_shift : Option ShiftRecord → Result ShiftRecord
standing_shift none = err cashier_shift_required
standing_shift (some shift) = if is_open shift.status then ok shift else err cashier_shift_required

-- What passed before the payment is computed: the order, the method and the locked shift.
pub record Gate : Type 0 where
  pub snapshot : OrderFinancialSnapshot
  pub method : PaymentMethodRecord
  pub shift : ShiftRecord

module _ (reads : PaymentReads) (w : List PaymentWrite) where
  -- The shift gateway of a user at a branch, as locked.
  unfoldable pub locked_open_shift : Text → Text → Result ShiftRecord
  locked_open_shift user branch = do
    gateway ← some_or cashier_shift_required (reads.find_open_shift_for_cashier w user branch)
    standing_shift (reads.lock_shift w gateway.id)

  unfoldable pub prepare_gate : RecordPaymentInput → Result Gate
  prepare_gate input = do
    snapshot ← some_or not_found (reads.load_order_financial_snapshot w input.order_id)
    guard (takes_payment snapshot.payment_status) validation
    method ← usable_method (reads.load_payment_method w input.payment_method_id) snapshot.branch_id
    shift ← locked_open_shift input.cashier_user_id snapshot.branch_id
    ok (record { snapshot = snapshot; method = method; shift = shift })

-- The tendered amount, with its value in the base currency.
pub record GrossTender : Type 0 where
  pub tendered_minor : ℤ
  pub tendered_digits : ℕ
  pub exchange_rate_snapshot : Option Text
  pub gross_base_minor : ℤ

unfoldable pub foreign_tender : PaymentMethodRecord → CurrencyCode → ℕ → Text → Result GrossTender
foreign_tender method base base_digits amount_text = do
  rate ← some_or payment_method_unavailable method.fixed_exchange_rate
  code ← some_or payment_method_unavailable method.currency_code
  foreign ← currency_code code
  digits ← storage_minor_unit_digits foreign
  tendered ← non_negative_decimal_text_to_minor amount_text (int (pos digits))
  value ← money tendered foreign
  converted ← convert_money_at_rate value rate base (int (pos base_digits)) (int (pos digits))
  ok (record {
    tendered_minor = tendered;
    tendered_digits = digits;
    exchange_rate_snapshot = some rate;
    gross_base_minor = converted.amount_minor;
  })

unfoldable pub base_tender : ℕ → Text → Result GrossTender
base_tender base_digits amount_text = do
  tendered ← non_negative_decimal_text_to_minor amount_text (int (pos base_digits))
  ok (record {
    tendered_minor = tendered;
    tendered_digits = base_digits;
    exchange_rate_snapshot = none;
    gross_base_minor = tendered;
  })

unfoldable pub gross_tender : PaymentMethodRecord → CurrencyCode → ℕ → Text → Result GrossTender
gross_tender method base base_digits amount_text =
    if is_foreign method.kind
    then foreign_tender method base base_digits amount_text
    else base_tender base_digits amount_text

-- An explicit change that is absent, or the given one.
abbrev pub names_change : Option ℤ → ℤ → Bool
names_change none change = true
names_change (some explicit) change = eqb_ℤ explicit change

abbrev pub positive_part : ℤ → ℤ
positive_part n = if ltb_ℤ (pos 0) n then n else pos 0

unfoldable pub change_due : PaymentMethodType → ℤ → ℤ → ℤ
change_due kind gross remaining =
    if is_cash_like kind then positive_part (gross -ℤ remaining) else pos 0

pub record Tender : Type 0 where
  pub gross : GrossTender
  pub total_minor : ℤ
  pub remaining_before : ℤ
  pub change_minor : ℤ
  pub net_base_minor : ℤ
  pub amount : Text
  pub amount_in_base_currency : Text
  pub change_given_amount : Option Text

-- The change as text, for a cash method that gives some.
unfoldable pub change_text : PaymentMethodType → ℤ → ℕ → Result (Option Text)
change_text kind change digits =
    if is_cash_like kind && ltb_ℤ (pos 0) change
    then minor_to_decimal_text change (int (pos digits)) >>= (λ text. ok (some text))
    else ok none

-- From the totals of the order to the amounts of the payment.
unfoldable pub prepare_tender :
    OrderFinancialSnapshot → PaymentMethodRecord → RecordPaymentInput → Result Tender
prepare_tender snapshot method input = do
  totals ← compute_order_totals snapshot
  let remaining = totals.remaining_balance_minor
  guard (ltb_ℤ (pos 0) remaining) payment_exceeds_balance
  base ← currency_code snapshot.base_currency_code
  digits ← storage_minor_unit_digits base
  gross ← gross_tender method base digits input.amount_text
  let change = change_due method.kind gross.gross_base_minor remaining
  guard (names_change input.explicit_change_minor change) validation
  let net = gross.gross_base_minor -ℤ change
  guard (ltb_ℤ (pos 0) net) validation
  guard (not (ltb_ℤ remaining net)) payment_exceeds_balance
  amount ← minor_to_decimal_text gross.tendered_minor (int (pos gross.tendered_digits))
  net_text ← minor_to_decimal_text net (int (pos digits))
  change_given ← change_text method.kind change digits
  ok (record {
    gross = gross;
    total_minor = totals.total_minor;
    remaining_before = remaining;
    change_minor = change;
    net_base_minor = net;
    amount = amount;
    amount_in_base_currency = net_text;
    change_given_amount = change_given;
  })
