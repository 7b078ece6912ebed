-- ===== src/Money/Decimal/Value.antt =====
-- What a parsed decimal text is worth.
use alpha_shadow.Prelude.{
  ℕ, zero, suc, ◌^◌, ◌≤◌, ◌<◌, ◌≡◌, ◌≢◌, length, arith, int, ℤ, pos, ◌*ℤ◌, ◌++◌, Text, ok, Num, sym,
  ◌∙◌, >>=-eq-ok, ok-injective,
}
use alpha_shadow.Money.Rounding.{divide-pos, IsHalfEven, divide_round_half_to_even-IsHalfEven}
use alpha_shadow.Money.Decimal.{
  max_scale, must_match, assert_digits, digits_value, non_negative_decimal_text_to_minor,
}

pub ten_pow-pos : (n : ℕ) → 0 < 10 ^ n
ten_pow-pos zero = omega arith
ten_pow-pos (suc n) = omega (arith, ten_pow-pos n)

pos-not-zero : (n : ℕ) → 0 < n → pos n ≢ pos 0
pos-not-zero n h e = grind arith

pub assert_digits-ok : (scale : ℕ) → scale ≤ max_scale → assert_digits (int (pos scale)) ≡ ok scale
unfolding assert_digits
assert_digits-ok scale h = ground arith

-- A canonical decimal text, of the digits `whole` and `fraction`, is parsed at a scale of up to
-- eight digits to its exact value times `10 ^ scale`, rounded to the nearest number of minor units,
-- a tie to the even one.
pub non_negative_decimal_text_to_minor-IsHalfEven :
    (text whole fraction : Text) (scale : ℕ)
    → must_match text ≡ ok (whole, fraction)
    → scale ≤ max_scale
    → (minor : ℤ) × (non_negative_decimal_text_to_minor text (int (pos scale)) ≡ ok minor)
      × IsHalfEven
          (pos (digits_value 0 (whole ++ fraction)) *ℤ pos (10 ^ scale))
          (pos (10 ^ length fraction))
          minor
unfolding non_negative_decimal_text_to_minor
non_negative_decimal_text_to_minor-IsHalfEven text whole fraction scale parsed small =
    rw (assert_digits-ok scale small) (
      rw parsed (
        divide_round_half_to_even-IsHalfEven
          (pos (digits_value 0 (whole ++ fraction)) *ℤ pos (10 ^ scale))
          (pos (10 ^ length fraction)) (pos-not-zero _ (ten_pow-pos (length fraction)))))

-- A text without a sign is worth a number of units that is not negative.
pub non_negative_decimal_text_to_minor-pos :
    (text : Text) (digits : Num) {minor : ℤ}
    → non_negative_decimal_text_to_minor text digits ≡ ok minor
    → (n : ℕ) × (minor ≡ pos n)
unfolding non_negative_decimal_text_to_minor
non_negative_decimal_text_to_minor-pos text digits h =
    let (scale, _, h1) = >>=-eq-ok (assert_digits digits) _ h in
    let ((whole, fraction), _, h2) = >>=-eq-ok (must_match text) _ h1 in
    (
      _,
      ok-injective (
          sym h2
          ∙ divide-pos (digits_value 0 (whole ++ fraction)) (10 ^ scale) (10 ^ length fraction)
              (ten_pow-pos (length fraction))),
    )
