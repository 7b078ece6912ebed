-- ===== src/Tax/Dates.antt =====
-- domain/contracts/tax-rules.ts: country codes, calendar dates, and the date of a time in a zone. The
-- parts that `Intl.DateTimeFormat` gives are a parameter, `none` for an unknown zone. Times are valid.
use alpha_shadow.Prelude.{
  ℕ, ◌%◌, Bool, false, not, ◌&&◌, ◌||◌, leb, ◌==◌, any, all, if◌then◌else◌, Option, none, some,
  List, [], ◌∷◌, ◌++◌, Text, text_eq, text_ltb, codes, Result, ok, err, ◌>>=◌, ◌>>◌, guard,
  validation,
}
use alpha_shadow.Prelude.Assoc.{get}
use alpha_shadow.Prelude.Transactions.{some_or}
use alpha_shadow.Money.Decimal.{is_digit, digits_value}

abbrev pub is_upper : ℕ → Bool
is_upper c = leb 65 c && leb c 90

unfoldable pub assert_country_code : Text → Result (Unit {0})
assert_country_code (a ∷ b ∷ []) = guard (is_upper a && is_upper b) validation
assert_country_code _ = err validation

-- The days of a month in the calendar of `Date`.
abbrev pub is_leap : ℕ → Bool
is_leap year = (year % 4 == 0) && not (year % 100 == 0) || (year % 400 == 0)

abbrev pub days_in_month : ℕ → ℕ → ℕ
days_in_month year month =
    if month == 2
    then (if is_leap year then 29 else 28)
    else if any (λ m. month == m) (4 ∷ 6 ∷ 9 ∷ 11 ∷ [])
    then 30
    else 31

abbrev pub is_calendar_date : ℕ → ℕ → ℕ → Bool
is_calendar_date year month day =
    leb 1 year && leb 1 month && leb month 12 && leb 1 day && leb day (days_in_month year month)

-- YYYY-MM-DD, a date of the calendar, in a year other than 0000. `-` has code 45.
unfoldable pub is_tax_date : Text → Bool
is_tax_date (a ∷ b ∷ c ∷ d ∷ p ∷ e ∷ f ∷ q ∷ g ∷ h ∷ []) =
    (p == 45)
    && (q == 45)
    && all is_digit (a ∷ b ∷ c ∷ d ∷ e ∷ f ∷ g ∷ h ∷ [])
    && is_calendar_date (digits_value 0 (a ∷ b ∷ c ∷ d ∷ [])) (digits_value 0 (e ∷ f ∷ []))
        (digits_value 0 (g ∷ h ∷ []))
is_tax_date _ = false

unfoldable pub assert_tax_date : Text → Result (Unit {0})
assert_tax_date value = guard (is_tax_date value) validation

-- The upper bound of a range, if there is one.
abbrev pub not_before : Text → Option Text → Result (Unit {0})
not_before from none = ok tt
not_before from (some to) = do assert_tax_date to; guard (not (text_ltb to from)) validation

unfoldable pub assert_tax_date_range : Text → Option Text → Result (Unit {0})
assert_tax_date_range from to = do assert_tax_date from; not_before from to

abbrev pub part_or_empty : Text → List (Text × Text) → Text
part_or_empty key parts = found (get key parts)
  where
    found : Option Text → Text
    found none = []
    found (some value) = value

unfoldable pub tax_date_in_timezone :
    (ℕ → Text → Option (List (Text × Text))) → ℕ → Text → Result Text
tax_date_in_timezone format_to_parts time time_zone = do
  parts ← some_or validation (format_to_parts time time_zone)
  let date =
      part_or_empty (codes "year") parts
      ++ (45 ∷ part_or_empty (codes "month") parts)
      ++ (45 ∷ part_or_empty (codes "day") parts)
  assert_tax_date date
  ok date
