-- ===== src/Examples/MoneyCases.antt =====
-- Money, decimal texts and conversions at concrete inputs.
use alpha_shadow.Money.Storage.{minor_units_from_db, minor_units_to_db}
use alpha_shadow.Money.Storage.RoundTrip.{minor_units_from_db-minor_units_to_db}
use alpha_shadow.Prelude.{
  ◌^◌, ◌≤◌, ◌≡◌, ◌≢◌, refl, true, arith, Option, none, some, Num, int, ℤ, pos, negsuc, signed, ◌*ℤ◌,
  ◌+ℤ◌, List, [], ◌∷◌, ◌++◌, length, Text, codes, text_beq, ok, ◌⊎◌, quot_ℤ, rem_ℤ,
}
use alpha_shadow.Money.Currency.{CurrencyCode}
use alpha_shadow.Money.Rounding.{
  round_quotient, divide_round_half_to_even, IsHalfEven, divide_round_half_to_even-IsHalfEven,
}
use alpha_shadow.Money.Amount.{
  Money, money_within, money, zero_money, add, assert_same_currency, sum, sum_from, max_minor_units,
}
use alpha_shadow.Money.Allocation.{allocate, IsAllocation, allocate-IsAllocation}
use alpha_shadow.Money.Decimal.{
  split_point, is_integer_part, is_fraction_part, must_match, digits_value,
  non_negative_decimal_text_to_minor, decimal_text_to_minor, minor_to_decimal_text,
}
use alpha_shadow.Money.Decimal.Value.{non_negative_decimal_text_to_minor-IsHalfEven}
use alpha_shadow.Money.Decimal.Printing.{decimal_text_to_minor-minor_to_decimal_text}
use alpha_shadow.Money.Exchange.{
  parse_rate_numeric, assert_minor_unit_digits, convert_money_at_rate, CurrencyReads,
  convert_using_rate_source,
}
use alpha_shadow.Money.Exchange.Conversion.{ByRate, convert_using_rate_source-eq-ok}

abbrev usd : CurrencyCode
usd = codes "USD"

abbrev kwd : CurrencyCode
kwd = codes "KWD"

abbrev dollars : ℤ → Money
dollars n = record { amount_minor = n; currency = usd }

two_not_zero : pos 2 ≢ pos 0
two_not_zero e = grind arith

-- -7 / 2 is a tie: it is rounded to -4.
divide_round_half_to_even-IsHalfEven_example :
    (q : ℤ) × (divide_round_half_to_even (negsuc 6) (pos 2) ≡ ok q)
    × IsHalfEven (negsuc 6) (pos 2) q
divide_round_half_to_even-IsHalfEven_example =
    divide_round_half_to_even-IsHalfEven (negsuc 6) (pos 2) two_not_zero

-- -100 cents in three parts.
allocate-IsAllocation_example :
    (ms : List Money) × (allocate
        (record { amount_minor = signed true 100; currency = usd })
        (int (pos 3))
      ≡ ok ms)
    × IsAllocation true 100 3 usd ms
allocate-IsAllocation_example = allocate-IsAllocation true 100 2 usd small
  where
    small : 100 ≤ max_minor_units
    small = omega arith

abbrev two_amounts : List Money
two_amounts = dollars (pos 250) ∷ dollars (negsuc 49) ∷ []

two_amounts-sum : sum usd two_amounts ≡ ok (dollars (pos 200))
unfolding sum sum_from add assert_same_currency zero_money money money_within ◌+ℤ◌ text_beq
two_amounts-sum = refl

parsed_price : must_match (codes "12.345") ≡ ok (codes "12", codes "345")
unfolding must_match split_point is_integer_part is_fraction_part
parsed_price = refl

-- 12.345 at two digits is a tie between 1234 and 1235.
non_negative_decimal_text_to_minor-IsHalfEven_example :
    (minor : ℤ) × (non_negative_decimal_text_to_minor (codes "12.345") (int (pos 2)) ≡ ok minor)
    × IsHalfEven
        (pos (digits_value 0 (codes "12" ++ codes "345")) *ℤ pos (10 ^ 2))
        (pos (10 ^ length (codes "345")))
        minor
non_negative_decimal_text_to_minor-IsHalfEven_example =
    non_negative_decimal_text_to_minor-IsHalfEven (codes "12.345") (codes "12") (codes "345") 2
      parsed_price two_digits
  where
    two_digits : 2 ≤ 8
    two_digits = omega arith

abbrev fixed_rates : CurrencyReads
fixed_rates = record {
  find_at_or_before = λ _ _ _ _ _. some (codes "0.3075");
  find_minor_unit_digits = λ _ c. digits_of c;
  find_reporting_currency = some (λ _. some usd);
}
  where
    digits_of : CurrencyCode → Option Num
    digits_of _ = some (int (pos 2))

converted_price :
    convert_using_rate_source fixed_rates (codes "t1") (dollars (pos 1000)) kwd 5 none
    ≡ ok (record { amount_minor = pos 308; currency = kwd })
unfolding convert_using_rate_source convert_money_at_rate assert_minor_unit_digits
    parse_rate_numeric must_match split_point is_integer_part is_fraction_part digits_value
    divide_round_half_to_even round_quotient money money_within ◌*ℤ◌ ◌+ℤ◌ quot_ℤ rem_ℤ text_beq
converted_price = refl

convert_using_rate_source-eq-ok_example :
    ((usd ≡ kwd) × (record { amount_minor = pos 308; currency = kwd } ≡ dollars (pos 1000)))
    ⊎ ((usd ≢ kwd)
        × ByRate fixed_rates
            (codes "t1")
            (dollars (pos 1000))
            kwd
            5
            none
            (record { amount_minor = pos 308; currency = kwd }))
convert_using_rate_source-eq-ok_example =
    convert_using_rate_source-eq-ok fixed_rates (codes "t1") (dollars (pos 1000)) kwd 5 none
      converted_price

decimal_text_to_minor-minor_to_decimal_text_example :
    (text : Text) × (minor_to_decimal_text (negsuc 4) (int (pos 2)) ≡ ok text)
    × (decimal_text_to_minor text (int (pos 2)) ≡ ok (negsuc 4))
decimal_text_to_minor-minor_to_decimal_text_example =
    decimal_text_to_minor-minor_to_decimal_text (negsuc 4) 2 (omega arith)

minor_units_from_db-minor_units_to_db_example :
    minor_units_from_db (minor_units_to_db (negsuc 1_299)) ≡ ok (negsuc 1_299)
minor_units_from_db-minor_units_to_db_example = minor_units_from_db-minor_units_to_db (negsuc 1_299)
