-- ===== src/Inventory/Quantities/Exact.antt =====
-- Quantities are read exactly.
use native.Mathlib.Nat.{mul_assoc}
use alpha_shadow.Prelude.{
  ℕ, zero, suc, ◌+◌, ◌-◌, ◌*◌, ◌^◌, ◌≤◌, ◌<◌, ◌≡◌, refl, sym, ap, ◌∙◌, Bool, true, false, not, ◌||◌,
  ltb, leb, length, arith, ℤ, pos, signed, eqb_ℤ, [], ◌∷◌, ◌++◌, Text, ok, guard, guard-eq-ok,
  guard-not, >>=-eq-ok, ok-injective, validation,
}
use alpha_shadow.Money.Decimal.{must_match, digits_value, pad_end}
use alpha_shadow.Money.Decimal.RoundTrip.{digits_value-append}
use alpha_shadow.Inventory.Quantities.{
  is_negative, body_of, parse_strict_decimal, parse_strict_positive_decimal,
  parse_strict_non_zero_decimal,
}

-- The padding multiplies by a power of ten.
digits_value-pad_end :
    (scale n : ℕ) (text : Text)
    → length text ≤ scale
    → digits_value n (pad_end scale text) * 10 ^ length text ≡ digits_value n text * 10 ^ scale
unfolding digits_value pad_end
digits_value-pad_end zero n [] h = refl
digits_value-pad_end zero n (c ∷ rest) h = absurd (omega arith)
digits_value-pad_end (suc scale) n [] h =
    grind
      (arith, digits_value-pad_end scale (n * 10 + 0) [] (omega arith), mul_assoc n 10 (10 ^ scale))
digits_value-pad_end (suc scale) n (c ∷ rest) h =
    let next = n * 10 + (c - 48) in
    let padded = digits_value next (pad_end scale rest) in
    let worth = digits_value next rest in
    grind (
      arith,
      digits_value-pad_end scale next rest (omega arith),
      mul_assoc padded (10 ^ length rest) 10,
      mul_assoc worth (10 ^ scale) 10,
    )

appended :
    (whole fraction : Text) (scale : ℕ)
    → length fraction ≤ scale
    → digits_value 0 (whole ++ pad_end scale fraction) * 10 ^ length fraction
      ≡ digits_value 0 (whole ++ fraction) * 10 ^ scale
appended whole fraction scale h =
    ap (λ v. v * 10 ^ length fraction) (digits_value-append 0 whole (pad_end scale fraction))
    ∙ digits_value-pad_end scale (digits_value 0 whole) fraction h
    ∙ ap (λ v. v * 10 ^ scale) (sym (digits_value-append 0 whole fraction))

-- A quantity that is read: its sign, and its digits times `10 ^ scale` without a remainder.
pub record IsQuantity (text : Text) (scale : ℕ) (may_be_signed : Bool) (minor : ℤ) : Type 0 where
  pub whole : Text
  pub fraction : Text
  pub magnitude : ℕ
  pub parsed : must_match (body_of (is_negative may_be_signed text) text) ≡ ok (whole, fraction)
  pub short : length fraction ≤ scale
  pub exact_value :
      magnitude * 10 ^ length fraction ≡ digits_value 0 (whole ++ fraction) * 10 ^ scale
  pub is_minor : minor ≡ signed (is_negative may_be_signed text) magnitude
  pub positive : may_be_signed ≡ false → 0 < magnitude

positive_of : (s : Bool) (n : ℕ) → (s || ltb 0 n) ≡ true → s ≡ false → 0 < n
positive_of s n h k = ground arith

leb-le : (a b : ℕ) → leb a b ≡ true → a ≤ b
leb-le a b h = ground arith

-- A strict quantity is read exactly: it has at most `scale` fraction digits, its minor units are the
-- digits of the text times `10 ^ scale` without rounding, with the sign of the text where signs are
-- allowed, and it is positive where they are not.
pub parse_strict_decimal-IsQuantity :
    (text : Text) (scale : ℕ) (may_be_signed : Bool) {minor : ℤ}
    → parse_strict_decimal text scale may_be_signed ≡ ok minor
    → IsQuantity text scale may_be_signed minor
unfolding parse_strict_decimal
parse_strict_decimal-IsQuantity text scale may_be_signed h =
    let negative = is_negative may_be_signed text in
    let ((whole, fraction), parsed, h1) = >>=-eq-ok (must_match (body_of negative text)) _ h in
    let (_, short, h2) = >>=-eq-ok (guard (leb (length fraction) scale) validation) _ h1 in
    let magnitude = digits_value 0 (whole ++ pad_end scale fraction) in
    let (_, positive, h3) = >>=-eq-ok (guard (may_be_signed || ltb 0 magnitude) validation) _ h2 in
    let fits = leb-le (length fraction) scale (guard-eq-ok _ validation short) in
    record {
      whole = whole;
      fraction = fraction;
      magnitude = magnitude;
      parsed = parsed;
      short = fits;
      exact_value = appended whole fraction scale fits;
      is_minor = sym (ok-injective h3);
      positive = positive_of may_be_signed magnitude (guard-eq-ok _ validation positive);
    }

parse_strict_positive_decimal-pos :
    (text : Text) (scale : ℕ) {minor : ℤ}
    → parse_strict_positive_decimal text scale ≡ ok minor
    → (n : ℕ) × (minor ≡ pos n) × (0 < n)
unfolding parse_strict_positive_decimal
parse_strict_positive_decimal-pos text scale h =
    let q = parse_strict_decimal-IsQuantity text scale false h in
    (q.magnitude, q.is_minor, q.positive refl)

parse_strict_non_zero_decimal-eq-ok :
    (text : Text) (scale : ℕ) {minor : ℤ}
    → parse_strict_non_zero_decimal text scale ≡ ok minor
    → IsQuantity text scale true minor × (eqb_ℤ minor (pos 0) ≡ false)
unfolding parse_strict_non_zero_decimal
parse_strict_non_zero_decimal-eq-ok text scale h =
    let (minor, is, h1) = >>=-eq-ok (parse_strict_decimal text scale true) _ h in
    let (_, not_zero, h2) = >>=-eq-ok (guard (not (eqb_ℤ minor (pos 0))) validation) _ h1 in
    rw (← ok-injective h2)
      (parse_strict_decimal-IsQuantity text scale true is, guard-not _ validation not_zero)
