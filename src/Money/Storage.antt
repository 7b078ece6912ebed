-- ===== src/Money/Storage.antt =====
-- shared/money.ts: minor units as the texts that a database keeps, and two tests of an amount.
pub mod RoundTrip
use alpha_shadow.Prelude.{
  ℕ, suc, Bool, true, false, not, ◌==◌, if◌then◌else◌, ℤ, pos, negsuc, signed, eqb_ℤ, ltb_ℤ, List,
  [], ◌∷◌, Text, text_eq, ◌===◌, codes, Result, ok, err, ◌>>=◌, ◌>>◌, guard, validation,
}
use alpha_shadow.Money.Currency.{CurrencyCode}
use alpha_shadow.Money.Amount.{Money, money}
use alpha_shadow.Money.Decimal.{is_integer_part, digits_value, to_digits, to_text}

-- `-?(0|[1-9]\d*)`; `-` has code 45.
abbrev pub is_canonical : Text → Bool
is_canonical [] = false
is_canonical (c ∷ rest) = if c == 45 then is_integer_part rest else is_integer_part (c ∷ rest)

-- `BigInt(text)` of a canonical text.
abbrev pub integer_value : Text → ℤ
integer_value [] = pos 0
integer_value (c ∷ rest) =
    if c == 45 then signed true (digits_value 0 rest) else pos (digits_value 0 (c ∷ rest))

unfoldable pub minor_units_from_db : Text → Result ℤ
minor_units_from_db text = do
  guard (not (text === codes "-0")) validation
  guard (is_canonical text) validation
  ok (integer_value text)

unfoldable pub minor_units_to_db : ℤ → Text
unfolding to_digits
minor_units_to_db (pos n) = to_text n
minor_units_to_db (negsuc n) = 45 ∷ to_text (suc n)

unfoldable pub money_from_minor_string : Text → CurrencyCode → Result Money
money_from_minor_string amount currency = do
  minor ← minor_units_from_db amount
  money minor currency

abbrev pub to_minor_string : Money → Text
to_minor_string value = minor_units_to_db value.amount_minor

abbrev pub is_zero : Money → Bool
is_zero value = eqb_ℤ value.amount_minor (pos 0)

abbrev pub is_negative : Money → Bool
is_negative value = ltb_ℤ value.amount_minor (pos 0)
