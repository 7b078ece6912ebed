-- ===== src/Money/Exchange/Conversion.antt =====
-- The result of a conversion.
use mathlib.Core.Path.{subst}
use alpha_shadow.Prelude.{
  ℕ, zero, suc, ◌*◌, ◌^◌, ◌<◌, ◌≡◌, ◌≢◌, sym, ap, ◌∙◌, arith, Option, none, some, Num, ℤ, pos, ◌*ℤ◌,
  if◌then◌else◌, Text, text_eq, text_beq, text_beq_iff, text_beq-false, Bool-cases, inl, inr, ok,
  >>=-eq-ok, ok-injective, ◌⊎◌,
}
use alpha_shadow.Money.Currency.{CurrencyCode}
use alpha_shadow.Money.Rounding.{
  divide_round_half_to_even, IsHalfEven, divide_round_half_to_even-IsHalfEven,
}
use alpha_shadow.Money.Amount.{Money, money-eq-ok}
use alpha_shadow.Money.Decimal.Value.{ten_pow-pos}
use alpha_shadow.Money.Exchange.{
  ParsedDecimal, parse_rate_numeric, assert_minor_unit_digits, convert_money_at_rate, CurrencyReads,
  registered, convert_by_rate, convert_using_rate_source,
}

-- The amount times the rate, between the scales of the two currencies, rounded once.
pub record IsConverted (value : Money) (rate_text : Text) (target : CurrencyCode)
    (target_digits source_digits : Num) (result : Money) : Type 0 where
  pub source : ℕ
  pub digits : ℕ
  pub rate : ParsedDecimal
  pub is_source : assert_minor_unit_digits source_digits ≡ ok source
  pub is_target : assert_minor_unit_digits target_digits ≡ ok digits
  pub is_rate : parse_rate_numeric rate_text ≡ ok rate
  pub currency : result.currency ≡ target
  pub amount :
      IsHalfEven
        (value.amount_minor *ℤ pos rate.coefficient *ℤ pos (10 ^ digits))
        (pos (10 ^ source * 10 ^ rate.scale))
        result.amount_minor

product-pos : (a b : ℕ) → 0 < a → 0 < b → pos (a * b) ≢ pos 0
product-pos (suc a) (suc b) h k e = grind arith
product-pos zero b h k e = absurd (omega arith)
product-pos (suc a) zero h k e = absurd (omega arith)

rounded-IsHalfEven :
    (n d : ℤ) {q : ℤ} → d ≢ pos 0 → divide_round_half_to_even n d ≡ ok q → IsHalfEven n d q
rounded-IsHalfEven n d {q} h k =
    let (p, run, half_even) = divide_round_half_to_even-IsHalfEven n d h in
    subst (IsHalfEven n d) (ok-injective (sym run ∙ k)) half_even

-- A conversion that succeeds gives the target's currency and the amount times the rate, scaled from
-- the digits of the source to those of the target and rounded once, to the nearest, a tie to even.
pub convert_money_at_rate-eq-ok :
    (value : Money) (rate_text : Text) (target : CurrencyCode) (target_digits source_digits : Num)
    {result : Money}
    → convert_money_at_rate value rate_text target target_digits source_digits ≡ ok result
    → IsConverted value rate_text target target_digits source_digits result
unfolding convert_money_at_rate
convert_money_at_rate-eq-ok value rate_text target target_digits source_digits {result} h =
    let (source, is_source, h1) = >>=-eq-ok (assert_minor_unit_digits source_digits) _ h in
    let (digits, is_target, h2) = >>=-eq-ok (assert_minor_unit_digits target_digits) _ h1 in
    let (rate, is_rate, h3) = >>=-eq-ok (parse_rate_numeric rate_text) _ h2 in
    let n = value.amount_minor *ℤ pos rate.coefficient *ℤ pos (10 ^ digits) in
    let d = pos (10 ^ source * 10 ^ rate.scale) in
    let (q, rounded, h4) = >>=-eq-ok (divide_round_half_to_even n d) _ h3 in
    let (same, _) = money-eq-ok q target h4 in
    let near =
      rounded-IsHalfEven n d
        (product-pos (10 ^ source) (10 ^ rate.scale) (ten_pow-pos source) (ten_pow-pos rate.scale))
        rounded in
    record {
      source = source;
      digits = digits;
      rate = rate;
      is_source = is_source;
      is_target = is_target;
      is_rate = is_rate;
      currency = ap (λ m. m.currency) same;
      amount = subst (IsHalfEven n d) (sym (ap (λ m. m.amount_minor) same)) near;
    }

registered-eq-ok : {A : Type 0} (o : Option A) {a : A} → registered o ≡ ok a → o ≡ some a
registered-eq-ok none h = cc
registered-eq-ok (some b) h = cc

-- A conversion at a rate that the store has.
abbrev pub ByRate : CurrencyReads → Text → Money → CurrencyCode → ℕ → Option Text → Money → Type 0
ByRate reads tenant amount target time source result =
    (rate : Text) × (from : Num) × (to : Num) × (reads.find_at_or_before tenant amount.currency
        target time source
      ≡ some rate)
    × (reads.find_minor_unit_digits tenant amount.currency ≡ some from)
    × (reads.find_minor_unit_digits tenant target ≡ some to)
    × IsConverted amount rate target to from result

convert_by_rate-eq-ok :
    (reads : CurrencyReads) (tenant : Text) (amount : Money) (target : CurrencyCode) (time : ℕ)
    (source : Option Text) {result : Money}
    → convert_by_rate reads tenant amount target time source ≡ ok result
    → ByRate reads tenant amount target time source result
convert_by_rate-eq-ok reads tenant amount target time source h =
    let (rate, found, h1) =
      >>=-eq-ok (registered (reads.find_at_or_before tenant amount.currency target time source)) _
        h in
    let (from, source_known, h2) =
      >>=-eq-ok (registered (reads.find_minor_unit_digits tenant amount.currency)) _ h1 in
    let (to, target_known, h3) =
      >>=-eq-ok (registered (reads.find_minor_unit_digits tenant target)) _ h2 in
    (
      rate,
      from,
      to,
      registered-eq-ok _ found,
      registered-eq-ok _ source_known,
      registered-eq-ok _ target_known,
      convert_money_at_rate-eq-ok amount rate target to from h3,
    )

-- Reporting in the currency of the amount gives the amount itself, and reporting in another one
-- is a conversion at a rate that the store has for the time of the transaction, between the digits
-- that it has for the two currencies.
pub convert_using_rate_source-eq-ok :
    (reads : CurrencyReads) (tenant : Text) (amount : Money) (target : CurrencyCode) (time : ℕ)
    (source : Option Text) {result : Money}
    → convert_using_rate_source reads tenant amount target time source ≡ ok result
    → ((amount.currency ≡ target) × (result ≡ amount))
      ⊎ ((amount.currency ≢ target) × ByRate reads tenant amount target time source result)
unfolding convert_using_rate_source
convert_using_rate_source-eq-ok reads tenant amount target time source h =
    let other = convert_by_rate reads tenant amount target time source in
    elim (Bool-cases (text_beq amount.currency target)) [
      | inl same ↦ inl (
        (text_beq_iff amount.currency target).0 same,
        sym (ok-injective (ap (λ b. if b then ok amount else other) (sym same) ∙ h)),
      )
      | inr differs ↦ inr (
        text_beq-false amount.currency target differs,
        convert_by_rate-eq-ok reads tenant amount target time source
            (ap (λ b. if b then ok amount else other) (sym differs) ∙ h),
      )
    ]
