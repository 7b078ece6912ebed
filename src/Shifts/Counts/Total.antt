-- ===== src/Shifts/Counts/Total.antt =====
-- What an accepted cash count is.
use alpha_shadow.Prelude.{
  guard-eq-ok, ℕ, ◌≤◌, ◌≡◌, sym, false, not, leb, arith, Num, int, non_integer, ℤ, pos, negsuc,
  ◌+ℤ◌, ◌*ℤ◌, ◌<ℤ◌, leb_ℤ, List, [], ◌∷◌, ok, guard, validation, >>=-eq-ok, guard-not, ok-injective,
}
use alpha_shadow.Money.Decimal.{split_point, non_negative_decimal_text_to_minor}
use alpha_shadow.Shifts.Counts.{
  CashCountLineInput, fraction_digits, assert_native_denomination_scale, assert_quantity,
  line_value, count_from, validate_counts,
}

-- A line that counts: its denomination is positive at the scale, with no digit beyond it.
pub record IsCounted (digits : ℕ) (line : CashCountLineInput) (value : ℤ) : Type 0 where
  pub quantity : ℕ
  pub denomination : ℤ
  pub is_quantity : line.quantity ≡ int (pos quantity)
  pub parsed :
      non_negative_decimal_text_to_minor line.denomination_value (int (pos digits))
      ≡ ok denomination
  pub positive : pos 0 <ℤ denomination
  pub native : fraction_digits (split_point line.denomination_value).1 ≤ digits
  pub worth : value ≡ denomination *ℤ pos quantity

assert_quantity-eq-ok : (q : Num) {n : ℕ} → assert_quantity q ≡ ok n → q ≡ int (pos n)
unfolding assert_quantity
assert_quantity-eq-ok (int (pos m)) h = cc
assert_quantity-eq-ok (int (negsuc m)) h = cc
assert_quantity-eq-ok non_integer h = cc

not-leb : (z : ℤ) → leb_ℤ z (pos 0) ≡ false → pos 0 <ℤ z
not-leb (pos n) h = ground arith
not-leb (negsuc n) h = ground arith

line_value-IsCounted :
    (digits : ℕ) (line : CashCountLineInput) {value : ℤ}
    → line_value digits line ≡ ok value
    → IsCounted digits line value
unfolding line_value assert_native_denomination_scale
line_value-IsCounted digits line h =
    let (n, counted, h1) = >>=-eq-ok (assert_quantity line.quantity) _ h in
    let (_, native, h2) =
      >>=-eq-ok
        (guard (leb (fraction_digits (split_point line.denomination_value).1) digits) validation) _
        h1 in
    let (d, parsed, h3) =
      >>=-eq-ok (non_negative_decimal_text_to_minor line.denomination_value (int (pos digits))) _
        h2 in
    let (_, positive, done) = >>=-eq-ok (guard (not (leb_ℤ d (pos 0))) validation) _ h3 in
    let small =
      guard-eq-ok (leb (fraction_digits (split_point line.denomination_value).1) digits) _ native in
    record {
      quantity = n;
      denomination = d;
      is_quantity = assert_quantity-eq-ok line.quantity counted;
      parsed = parsed;
      positive = not-leb d (guard-not (leb_ℤ d (pos 0)) validation positive);
      native = ground (arith, small);
      worth = sym (ok-injective done);
    }

-- The values of the lines, in their order, of which the total is the sum.
pub data Counted (digits : ℕ) : List CashCountLineInput → ℤ → ℤ → Type 0 where
  nothing : (total : ℤ) → Counted digits [] total total
  counts :
      (line : CashCountLineInput) (rest : List CashCountLineInput) (value before after : ℤ)
      → IsCounted digits line value
      → Counted digits rest (before +ℤ value) after
      → Counted digits (line ∷ rest) before after

count_from-Counted :
    (digits : ℕ) (total : ℤ) (lines : List CashCountLineInput) {after : ℤ}
    → count_from digits total lines ≡ ok after
    → Counted digits lines total after
unfolding count_from
count_from-Counted digits total [] {after} h = rw (← ok-injective h) (nothing total)
count_from-Counted digits total (line ∷ rest) {after} h =
    let (value, first, h1) = >>=-eq-ok (line_value digits line) _ h in
    counts line rest value total after (line_value-IsCounted digits line first)
      (count_from-Counted digits (total +ℤ value) rest h1)

-- An accepted count is the sum over its lines of a positive denomination, written with no more
-- digits than the scale, times a natural quantity.
pub validate_counts-Counted :
    (lines : List CashCountLineInput) (digits : ℕ) {total : ℤ}
    → validate_counts lines digits ≡ ok total
    → Counted digits lines (pos 0) total
unfolding validate_counts
validate_counts-Counted lines digits h = count_from-Counted digits (pos 0) lines h
