-- ===== src/Payments/Engine/Net.antt =====
-- The arithmetic of a payment: the change, the net amount, and what remains of the order.
use alpha_shadow.Prelude.{
  ◌≡◌, refl, true, false, not, arith, int, ℤ, pos, ◌-ℤ◌, ◌≤ℤ◌, ◌<ℤ◌, ltb_ℤ, ok, guard, guard-not,
  guard-eq-ok, >>=-eq-ok, ok-injective, validation, payment_exceeds_balance, ℕ,
}
use alpha_shadow.Money.Currency.{CurrencyCode, currency_code}
use alpha_shadow.Money.Decimal.{storage_minor_unit_digits, minor_to_decimal_text}
use alpha_shadow.Payments.Totals.{
  OrderFinancialSnapshot, OrderTotalsComputation, compute_order_totals,
}
use alpha_shadow.Payments.Records.{PaymentMethodType, PaymentMethodRecord}
use alpha_shadow.Payments.Collect.{
  RecordPaymentInput, is_cash_like, gross_tender, names_change, change_due, change_text, Tender,
  prepare_tender,
}

pub change_due-nonneg :
    (kind : PaymentMethodType) (gross remaining : ℤ) → pos 0 ≤ℤ change_due kind gross remaining
unfolding change_due ◌-ℤ◌
change_due-nonneg kind gross remaining = ground arith

change_due-cash :
    (kind : PaymentMethodType) (gross remaining : ℤ)
    → is_cash_like kind ≡ true
    → (remaining <ℤ gross → gross -ℤ change_due kind gross remaining ≡ remaining)
      × (gross ≤ℤ remaining → change_due kind gross remaining ≡ pos 0)
unfolding change_due ◌-ℤ◌
change_due-cash kind gross remaining h = rw h (ground arith, ground arith)

change_due-none :
    (kind : PaymentMethodType) (gross remaining : ℤ)
    → is_cash_like kind ≡ false
    → change_due kind gross remaining ≡ pos 0
unfolding change_due
change_due-none kind gross remaining h = rw h refl

-- What the amounts of a payment satisfy.
pub record IsTender (snapshot : OrderFinancialSnapshot) (method : PaymentMethodRecord)
    (input : RecordPaymentInput) (t : Tender) : Type 0 where
  pub totals : OrderTotalsComputation
  pub base : CurrencyCode
  pub digits : ℕ
  pub computed : compute_order_totals snapshot ≡ ok totals
  pub is_base : currency_code snapshot.base_currency_code ≡ ok base
  pub is_digits : storage_minor_unit_digits base ≡ ok digits
  pub is_gross : gross_tender method base digits input.amount_text ≡ ok t.gross
  pub change : t.change_minor ≡ change_due method.kind t.gross.gross_base_minor t.remaining_before
  pub amount_text :
      minor_to_decimal_text t.gross.tendered_minor (int (pos t.gross.tendered_digits)) ≡ ok t.amount
  pub net_text :
      minor_to_decimal_text t.net_base_minor (int (pos digits)) ≡ ok t.amount_in_base_currency
  pub given_text : change_text method.kind t.change_minor digits ≡ ok t.change_given_amount
  pub remaining : t.remaining_before ≡ totals.remaining_balance_minor
  pub total : t.total_minor ≡ totals.total_minor
  pub net : t.net_base_minor ≡ t.gross.gross_base_minor -ℤ t.change_minor
  pub net_positive : pos 0 <ℤ t.net_base_minor
  pub net_capped : t.net_base_minor ≤ℤ t.remaining_before
  pub change_not_negative : pos 0 ≤ℤ t.change_minor
  pub cash_change :
      is_cash_like method.kind ≡ true
      → (t.remaining_before <ℤ t.gross.gross_base_minor → t.net_base_minor ≡ t.remaining_before)
        × (t.gross.gross_base_minor ≤ℤ t.remaining_before → t.change_minor ≡ pos 0)
  pub other_change : is_cash_like method.kind ≡ false → t.change_minor ≡ pos 0
  pub named : names_change input.explicit_change_minor t.change_minor ≡ true

not-below : (a b : ℤ) → ltb_ℤ a b ≡ false → b ≤ℤ a
not-below a b h = ground arith

below : (a b : ℤ) → ltb_ℤ a b ≡ true → a <ℤ b
below a b h = ground arith

-- The amounts of a payment that is accepted: the net amount is the tendered value less the change,
-- it is positive and at most the remaining balance, only cash gives change, which is what exceeds
-- the balance, an explicit change is that one, and the texts of the payment print these amounts.
pub prepare_tender-IsTender :
    (snapshot : OrderFinancialSnapshot) (method : PaymentMethodRecord) (input : RecordPaymentInput)
    {tender : Tender}
    → prepare_tender snapshot method input ≡ ok tender
    → IsTender snapshot method input tender
unfolding prepare_tender
prepare_tender-IsTender snapshot method input h =
    let (totals, computed, h1) = >>=-eq-ok (compute_order_totals snapshot) _ h in
    let remaining : ℤ = totals.remaining_balance_minor in
    let (_, _, h2) = >>=-eq-ok (guard (ltb_ℤ (pos 0) remaining) payment_exceeds_balance) _ h1 in
    let (base, is_base, h3) = >>=-eq-ok (currency_code snapshot.base_currency_code) _ h2 in
    let (digits, is_digits, h4) = >>=-eq-ok (storage_minor_unit_digits base) _ h3 in
    let (gross, is_gross, h5) =
      >>=-eq-ok (gross_tender method base digits input.amount_text) _ h4 in
    let change : ℤ = change_due method.kind gross.gross_base_minor remaining in
    let (_, named, h6) =
      >>=-eq-ok (guard (names_change input.explicit_change_minor change) validation) _ h5 in
    let net : ℤ = gross.gross_base_minor -ℤ change in
    let (_, positive, h7) = >>=-eq-ok (guard (ltb_ℤ (pos 0) net) validation) _ h6 in
    let (_, capped, h8) =
      >>=-eq-ok (guard (not (ltb_ℤ remaining net)) payment_exceeds_balance) _ h7 in
    let (amount, amount_text, h9) =
      >>=-eq-ok (minor_to_decimal_text gross.tendered_minor (int (pos gross.tendered_digits))) _
        h8 in
    let (net_amount, net_text, h10) =
      >>=-eq-ok (minor_to_decimal_text net (int (pos digits))) _ h9 in
    let (given, given_text, h11) = >>=-eq-ok (change_text method.kind change digits) _ h10 in
    rw (← ok-injective h11) (record {
      totals = totals;
      computed = computed;
      base = base;
      digits = digits;
      is_base = is_base;
      is_digits = is_digits;
      is_gross = is_gross;
      change = refl;
      amount_text = amount_text;
      net_text = net_text;
      given_text = given_text;
      remaining = refl;
      total = refl;
      net = refl;
      net_positive = below (pos 0) net (guard-eq-ok _ validation positive);
      net_capped = not-below remaining net (guard-not _ payment_exceeds_balance capped);
      change_not_negative = change_due-nonneg method.kind gross.gross_base_minor remaining;
      cash_change = change_due-cash method.kind gross.gross_base_minor remaining;
      other_change = change_due-none method.kind gross.gross_base_minor remaining;
      named = guard-eq-ok _ validation named;
    })
