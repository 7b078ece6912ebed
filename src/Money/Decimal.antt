-- ===== src/Money/Decimal.antt =====
-- shared/decimal-text.ts: canonical decimal text and minor units.
pub mod Value
pub mod RoundTrip
pub mod Printing
use alpha_shadow.Prelude.{
  ℕ, zero, suc, ◌+◌, ◌-◌, ◌*◌, ◌/◌, ◌%◌, ◌^◌, Bool, true, false, not, ◌&&◌, ◌||◌, ltb, leb, ◌==◌,
  arith, if◌then◌else◌, Option, none, some, Num, int, non_integer, ℤ, pos, negsuc, neg_ℤ, abs_ℤ,
  ltb_ℤ, ◌*ℤ◌, all, length, List, [], ◌∷◌, ◌++◌, Text, text_eq, ◌===◌, codes, Result, ok, err,
  ◌>>=◌, ◌>>◌, guard, validation,
}
use alpha_shadow.Money.Currency.{CurrencyCode, minor_unit_scale}
use alpha_shadow.Money.Rounding.{divide_round_half_to_even}

abbrev pub max_scale : ℕ
max_scale = 8

abbrev pub storage_max_fraction_digits : ℕ
storage_max_fraction_digits = 4

abbrev pub is_digit : ℕ → Bool
is_digit c = leb 48 c && leb c 57

abbrev pub with_char : ℕ → Text × Option Text → Text × Option Text
with_char c (whole, fraction) = (c ∷ whole, fraction)

-- The text up to the first point (code 46), and what follows it.
unfoldable pub split_point : Text → Text × Option Text
split_point [] = ([], none)
split_point (c ∷ rest) =
    let later = split_point rest in if c == 46 then ([], some rest) else with_char c later

-- `0`, or digits of which the first is not `0`.
unfoldable pub is_integer_part : Text → Bool
is_integer_part [] = false
is_integer_part (c ∷ []) = is_digit c
is_integer_part (c ∷ d ∷ rest) = is_digit c && not (c == 48) && all is_digit (d ∷ rest)

unfoldable pub is_fraction_part : Text → Bool
is_fraction_part [] = false
is_fraction_part (c ∷ rest) = all is_digit (c ∷ rest)

-- `mustMatch`: the two groups of `CANONICAL_DECIMAL`, an absent fraction as the empty text.
unfoldable pub must_match : Text → Result (Text × Text)
unfolding split_point is_integer_part is_fraction_part
must_match text = matched (split_point text)
  where
    matched : Text × Option Text → Result (Text × Text)
    matched (whole, none) = if is_integer_part whole then ok (whole, []) else err validation
    matched (whole, some fraction) =
        if is_integer_part whole && is_fraction_part fraction
        then ok (whole, fraction)
        else err validation

-- `BigInt(digits)`, from the value of the digits before.
unfoldable pub digits_value : ℕ → Text → ℕ
digits_value n [] = n
digits_value n (c ∷ rest) = digits_value (n * 10 + (c - 48)) rest

unfoldable pub storage_minor_unit_digits : CurrencyCode → Result ℕ
storage_minor_unit_digits currency = do
  digits ← minor_unit_scale currency
  guard (leb digits storage_max_fraction_digits) validation
  ok digits

unfoldable pub assert_digits : Num → Result ℕ
assert_digits (int (pos n)) = if leb n max_scale then ok n else err validation
assert_digits (int (negsuc n)) = err validation
assert_digits non_integer = err validation

unfoldable pub non_negative_decimal_text_to_minor : Text → Num → Result ℤ
non_negative_decimal_text_to_minor text digits = do
  scale ← assert_digits digits
  parts ← must_match text
  let (whole, fraction) = parts
  divide_round_half_to_even (pos (digits_value 0 (whole ++ fraction)) *ℤ pos (10 ^ scale))
      (pos (10 ^ length fraction))

abbrev pub negated : Result ℤ → Result ℤ
negated (ok n) = ok (neg_ℤ n)
negated (err e) = err e

-- A text that starts with `-` (code 45) is parsed without it and negated.
unfoldable pub decimal_text_to_minor : Text → Num → Result ℤ
decimal_text_to_minor [] digits = non_negative_decimal_text_to_minor [] digits
decimal_text_to_minor (c ∷ rest) digits =
    if c == 45
    then negated (non_negative_decimal_text_to_minor rest digits)
    else non_negative_decimal_text_to_minor (c ∷ rest) digits

-- The last `k` decimal digits of a number, leading zeros kept, before `tail`.
unfoldable pub last_digits : ℕ → ℕ → Text → Text
last_digits zero n tail = tail
last_digits (suc k) n tail = last_digits k (n / 10) ((48 + n % 10) ∷ tail)

-- The digits of a number without leading zeros; `fuel` digits are enough below `10 ^ fuel`.
unfoldable pub to_digits : ℕ → ℕ → Text → Text
to_digits zero n tail = tail
to_digits (suc fuel) n tail = elim (ltb n 10) [
  | true ↦ (48 + n) ∷ tail
  | false ↦ to_digits fuel (n / 10) ((48 + n % 10) ∷ tail)
]

-- `text.padEnd(n, '0')`.
unfoldable pub pad_end : ℕ → Text → Text
pad_end zero text = text
pad_end (suc n) [] = 48 ∷ pad_end n []
pad_end (suc n) (c ∷ rest) = c ∷ pad_end n rest

unfoldable pub percent_text_to_dbps : Text → Result ℕ
percent_text_to_dbps text = do
  parts ← must_match text
  let (whole, fraction) = parts
  guard (leb (length fraction) 4) validation
  ok (digits_value 0 (whole ++ pad_end 4 fraction))

-- `n.toString()`; a number has at most as many digits as its value and one.
abbrev pub to_text : ℕ → Text
to_text n = to_digits (suc n) n []

unfoldable pub minor_to_decimal_text : ℤ → Num → Result Text
unfolding to_digits last_digits
minor_to_decimal_text minor digits = do
  scale ← assert_digits digits
  let absolute = abs_ℤ minor
  let whole = to_text (absolute / 10 ^ scale)
  let body =
      if scale == 0 then whole else whole ++ (46 ∷ last_digits scale (absolute % 10 ^ scale) [])
  ok (if ltb_ℤ minor (pos 0) then 45 ∷ body else body)

unfoldable pub dbps_to_percent_text : ℤ → Result Text
dbps_to_percent_text (pos dbps) =
    ok (to_text (dbps / 10_000) ++ (46 ∷ last_digits 4 (dbps % 10_000) []))
dbps_to_percent_text (negsuc n) = err validation
