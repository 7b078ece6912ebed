-- ===== src/Shifts/Counts.antt =====
-- application/engines/shifts/shift-engine.ts: `validateCounts` and the sign of a variance.
pub mod Total
use alpha_shadow.Prelude.{
  ℕ, ◌+◌, Bool, true, false, not, ltb, leb, arith, if◌then◌else◌, Option, none, some, Num, int,
  non_integer, ℤ, pos, negsuc, ◌+ℤ◌, ◌-ℤ◌, ◌*ℤ◌, ltb_ℤ, leb_ℤ, length, List, [], ◌∷◌, Text, Result,
  ok, err, ◌>>=◌, ◌>>◌, guard, validation,
}
use alpha_shadow.Money.Decimal.{split_point, non_negative_decimal_text_to_minor}

pub record CashCountLineInput : Type 0 where
  pub denomination_value : Text
  pub quantity : Num

pub data VarianceType : Type 0 where
  overage shortage exact : VarianceType

abbrev pub fraction_digits : Option Text → ℕ
fraction_digits none = 0
fraction_digits (some fraction) = length fraction

unfoldable pub assert_native_denomination_scale : Text → ℕ → Result (Unit {0})
assert_native_denomination_scale text digits =
    guard (leb (fraction_digits (split_point text).1) digits) validation

-- The check hands on the quantity that it accepts.
unfoldable pub assert_quantity : Num → Result ℕ
assert_quantity (int (pos n)) = ok n
assert_quantity (int (negsuc n)) = err validation
assert_quantity non_integer = err validation

-- One round of the loop: what the line adds to the total.
unfoldable pub line_value : ℕ → CashCountLineInput → Result ℤ
line_value digits line = do
  quantity ← assert_quantity line.quantity
  assert_native_denomination_scale line.denomination_value digits
  value ← non_negative_decimal_text_to_minor line.denomination_value (int (pos digits))
  guard (not (leb_ℤ value (pos 0))) validation
  ok (value *ℤ pos quantity)

-- The loop, from the total of the lines before.
unfoldable pub count_from : ℕ → ℤ → List CashCountLineInput → Result ℤ
count_from digits total [] = ok total
count_from digits total (line ∷ rest) = do
  value ← line_value digits line
  count_from digits (total +ℤ value) rest

unfoldable pub validate_counts : List CashCountLineInput → ℕ → Result ℤ
validate_counts lines digits = count_from digits (pos 0) lines

unfoldable pub variance_of : ℤ → ℤ → ℤ → ℤ
variance_of counted float recorded = counted -ℤ float -ℤ recorded

unfoldable pub variance_type : ℤ → VarianceType
variance_type variance =
    if ltb_ℤ (pos 0) variance then overage else if ltb_ℤ variance (pos 0) then shortage else exact
