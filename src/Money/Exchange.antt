-- ===== src/Money/Exchange.antt =====
-- shared/money.ts: `convertMoneyAtRate`, and application/engines/reporting/
-- currency-conversion-engine.ts. The rate text has the grammar of decimal texts. The transaction
-- time is a valid date, in milliseconds.
pub mod Conversion
use alpha_shadow.Prelude.{
  ℕ, ◌*◌, ◌^◌, Bool, leb, arith, if◌then◌else◌, Option, none, some, Num, int, non_integer, ℤ, pos,
  negsuc, ◌*ℤ◌, ltb, length, List, [], ◌∷◌, ◌++◌, Text, text_eq, codes, ◌===◌, Result, ok, err,
  ◌>>=◌, ◌>>◌, guard, validation, not_found,
}
use alpha_shadow.Money.Currency.{CurrencyCode}
use alpha_shadow.Money.Rounding.{divide_round_half_to_even}
use alpha_shadow.Money.Amount.{Money, money}
use alpha_shadow.Money.Decimal.{must_match, digits_value}

abbrev pub max_rate_scale : ℕ
max_rate_scale = 8

pub record ParsedDecimal : Type 0 where
  pub coefficient : ℕ
  pub scale : ℕ

unfoldable pub parse_rate_numeric : Text → Result ParsedDecimal
parse_rate_numeric text = do
  parts ← must_match text
  let (whole, fraction) = parts
  guard (leb (length fraction) max_rate_scale) validation
  let coefficient = digits_value 0 (whole ++ fraction)
  guard (ltb 0 coefficient) validation
  ok (record { coefficient = coefficient; scale = length fraction })

-- The check hands on the digits that it accepts.
unfoldable pub assert_minor_unit_digits : Num → Result ℕ
assert_minor_unit_digits (int (pos n)) = if leb n 4 then ok n else err validation
assert_minor_unit_digits (int (negsuc n)) = err validation
assert_minor_unit_digits non_integer = err validation

-- The digits are those of the target and of the source.
unfoldable pub convert_money_at_rate : Money → Text → CurrencyCode → Num → Num → Result Money
convert_money_at_rate value rate_text target target_digits source_digits = do
  source ← assert_minor_unit_digits source_digits
  digits ← assert_minor_unit_digits target_digits
  rate ← parse_rate_numeric rate_text
  amount ←
      divide_round_half_to_even (value.amount_minor *ℤ pos rate.coefficient *ℤ pos (10 ^ digits))
        (pos (10 ^ source * 10 ^ rate.scale))
  money amount target

-- The repositories of the engine: a missing rate or currency is `none`, and
-- so is an engine without reporting currencies.
pub record CurrencyReads : Type 0 where
  pub find_at_or_before : Text → CurrencyCode → CurrencyCode → ℕ → Option Text → Option Text
  pub find_minor_unit_digits : Text → CurrencyCode → Option Num
  pub find_reporting_currency : Option (Text → Option CurrencyCode)

abbrev pub registered : {A : Type 0} → Option A → Result A
registered none = err not_found
registered (some a) = ok a

module _ (reads : CurrencyReads) where
  abbrev pub convert_by_rate : Text → Money → CurrencyCode → ℕ → Option Text → Result Money
  convert_by_rate tenant amount target time source = do
    rate ← registered (reads.find_at_or_before tenant amount.currency target time source)
    let source_digits = reads.find_minor_unit_digits tenant amount.currency
    let target_digits = reads.find_minor_unit_digits tenant target
    from ← registered source_digits
    to ← registered target_digits
    convert_money_at_rate amount rate target to from

  unfoldable pub convert_using_rate_source :
      Text → Money → CurrencyCode → ℕ → Option Text → Result Money
  convert_using_rate_source tenant amount target time source =
      if amount.currency === target
      then ok amount
      else convert_by_rate tenant amount target time source

  unfoldable pub convert : Text → Money → CurrencyCode → ℕ → Result Money
  convert tenant amount target time = convert_using_rate_source tenant amount target time none

  abbrev pub reporting_currency_of :
      Option (Text → Option CurrencyCode) → Text → Result CurrencyCode
  reporting_currency_of none tenant = err validation
  reporting_currency_of (some find) tenant = registered (find tenant)

  unfoldable pub convert_to_reporting_currency : Text → Money → ℕ → Result Money
  convert_to_reporting_currency tenant amount time = do
    target ← reporting_currency_of reads.find_reporting_currency tenant
    convert_using_rate_source tenant amount target time (some (codes "market"))
