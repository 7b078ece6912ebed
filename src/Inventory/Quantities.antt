-- ===== src/Inventory/Quantities.antt =====
-- application/engines/inventory/inventory-engine.ts: `parseStrictDecimal`, which reads a quantity
-- without rounding. Its pattern is that of the canonical decimal texts.
pub mod Exact
use alpha_shadow.Prelude.{
  ℕ, Bool, true, false, not, ◌||◌, ltb, leb, ◌==◌, length, if◌then◌else◌, ℤ, pos, signed, eqb_ℤ,
  List, [], ◌∷◌, ◌++◌, Text, Result, ok, ◌>>=◌, ◌>>◌, guard, validation,
}
use alpha_shadow.Money.Decimal.{must_match, digits_value, pad_end}

-- `text.startsWith('-')`, and the text without the sign (code 45).
abbrev pub is_negative : Bool → Text → Bool
is_negative false text = false
is_negative true [] = false
is_negative true (c ∷ rest) = c == 45

abbrev pub without_first : Text → Text
without_first [] = []
without_first (c ∷ rest) = rest

abbrev pub body_of : Bool → Text → Text
body_of negative text = if negative then without_first text else text

unfoldable pub parse_strict_decimal : Text → ℕ → Bool → Result ℤ
parse_strict_decimal text scale may_be_signed = do
  let negative = is_negative may_be_signed text
  parts ← must_match (body_of negative text)
  let (whole, fraction) = parts
  guard (leb (length fraction) scale) validation
  let minor = digits_value 0 (whole ++ pad_end scale fraction)
  guard (may_be_signed || ltb 0 minor) validation
  ok (signed negative minor)

unfoldable pub parse_strict_positive_decimal : Text → ℕ → Result ℤ
parse_strict_positive_decimal text scale = parse_strict_decimal text scale false

unfoldable pub parse_strict_non_zero_decimal : Text → ℕ → Result ℤ
parse_strict_non_zero_decimal text scale = do
  minor ← parse_strict_decimal text scale true
  guard (not (eqb_ℤ minor (pos 0))) validation
  ok minor
