-- ===== src/Money/Decimal/RoundTrip.antt =====
-- Decimal texts that the code prints are read back as what was printed.
use native.Mathlib.Nat.{mul_assoc}
use alpha_shadow.Prelude.{
  ℕ, zero, suc, ◌+◌, ◌-◌, ◌*◌, ◌/◌, ◌%◌, ◌^◌, ◌≤◌, ◌<◌, ◌≡◌, refl, ap, ◌∙◌, Bool, true, false, not,
  ◌&&◌, ◌==◌, none, some, arith, int, pos, all, length, [], ◌∷◌, ◌++◌, Text, ok,
}
use alpha_shadow.Money.Rounding.{divide-exact}
use alpha_shadow.Money.Decimal.Value.{ten_pow-pos, assert_digits-ok}
use alpha_shadow.Money.Decimal.{
  max_scale, is_digit, split_point, is_integer_part, must_match, digits_value,
  non_negative_decimal_text_to_minor, last_digits, to_digits, to_text,
}

-- The digits of a number, of any length, are worth the number.
digits_value-to_digits :
    (fuel n : ℕ) (tail : Text)
    → n < fuel
    → digits_value 0 (to_digits fuel n tail) ≡ digits_value n tail
unfolding to_digits digits_value
digits_value-to_digits zero n tail h = ground arith
digits_value-to_digits (suc fuel) n tail h =
    ground (arith, digits_value-to_digits fuel (n / 10) ((48 + n % 10) ∷ tail))

next_digit : (k m n : ℕ) → (m * 10 ^ k + n / 10) * 10 + (48 + n % 10 - 48) ≡ m * 10 ^ suc k + n
next_digit k m n = grind (arith, mul_assoc m (10 ^ k) 10)

pub digits_value-last_digits :
    (k m n : ℕ) (tail : Text)
    → n < 10 ^ k
    → digits_value m (last_digits k n tail) ≡ digits_value (m * 10 ^ k + n) tail
unfolding last_digits digits_value
digits_value-last_digits zero m n tail h = ground arith
digits_value-last_digits (suc k) m n tail h =
    digits_value-last_digits k m (n / 10) ((48 + n % 10) ∷ tail) (omega arith)
    ∙ ap (λ v. digits_value v tail) (next_digit k m n)

pub length-last_digits : (k n : ℕ) (tail : Text) → length (last_digits k n tail) ≡ k + length tail
unfolding last_digits
length-last_digits zero n tail = omega arith
length-last_digits (suc k) n tail =
    omega (arith, length-last_digits k (n / 10) ((48 + n % 10) ∷ tail))

digit-is_digit : (n : ℕ) → is_digit (48 + n % 10) ≡ true
digit-is_digit n = ground arith

pub all-last_digits :
    (k n : ℕ) (tail : Text) → all is_digit tail ≡ true → all is_digit (last_digits k n tail) ≡ true
unfolding last_digits
all-last_digits zero n tail h = h
all-last_digits (suc k) n tail h =
    all-last_digits k (n / 10) ((48 + n % 10) ∷ tail) (rw (digit-is_digit n, h) refl)

-- Digits of which the first is not `0`.
abbrev leads : Text → Bool
leads [] = false
leads (c ∷ rest) = is_digit c && not (c == 48) && all is_digit rest

to_digits-leads :
    (fuel n : ℕ) (tail : Text)
    → 1 ≤ n
    → n < fuel
    → all is_digit tail ≡ true
    → leads (to_digits fuel n tail) ≡ true
unfolding to_digits
to_digits-leads zero n tail l h t = ground arith
to_digits-leads (suc fuel) n tail l h t =
    ground (arith, digit-is_digit n, to_digits-leads fuel (n / 10) ((48 + n % 10) ∷ tail))

leads-all : (text : Text) → leads text ≡ true → all is_digit text ≡ true
leads-all [] h = cc
leads-all (c ∷ rest) h = ground arith

leads-is_integer_part : (text : Text) → leads text ≡ true → is_integer_part text ≡ true
unfolding is_integer_part
leads-is_integer_part [] h = cc
leads-is_integer_part (c ∷ []) h = ground arith
leads-is_integer_part (c ∷ d ∷ rest) h = ground arith

pub split_point-digits : (text : Text) → all is_digit text ≡ true → split_point text ≡ (text, none)
unfolding split_point
split_point-digits [] h = refl
split_point-digits (c ∷ rest) h = ground (arith, split_point-digits rest)

pub split_point-point :
    (whole fraction : Text)
    → all is_digit whole ≡ true
    → split_point (whole ++ (46 ∷ fraction)) ≡ (whole, some fraction)
unfolding split_point
split_point-point [] fraction h = refl
split_point-point (c ∷ rest) fraction h = ground (arith, split_point-point rest fraction)

pub fraction-eq-ok :
    (text whole fraction : Text) (scale v : ℕ)
    → must_match text ≡ ok (whole, fraction)
    → scale ≤ max_scale
    → length fraction ≡ scale
    → digits_value 0 (whole ++ fraction) ≡ v
    → non_negative_decimal_text_to_minor text (int (pos scale)) ≡ ok (pos v)
unfolding non_negative_decimal_text_to_minor
fraction-eq-ok text whole fraction scale v parsed small long worth =
    rw (assert_digits-ok scale small, parsed, worth, long)
      (divide-exact v (10 ^ scale) (ten_pow-pos scale))

pub digits_value-append :
    (m : ℕ) (a b : Text) → digits_value m (a ++ b) ≡ digits_value (digits_value m a) b
unfolding digits_value
digits_value-append m [] b = refl
digits_value-append m (c ∷ a) b = digits_value-append (m * 10 + (c - 48)) a b

-- A number that is printed without leading zeros is an integer part of a decimal text.
to_text-leads : (n : ℕ) → 1 ≤ n → leads (to_text n) ≡ true
to_text-leads n h = to_digits-leads (suc n) n [] h (omega arith) refl

pub to_text-is_integer_part : (n : ℕ) → is_integer_part (to_text n) ≡ true
unfolding is_integer_part to_digits
to_text-is_integer_part zero = refl
to_text-is_integer_part (suc n) =
    leads-is_integer_part (to_text (suc n)) (to_text-leads (suc n) (omega arith))

pub to_text-all : (n : ℕ) → all is_digit (to_text n) ≡ true
unfolding to_digits
to_text-all zero = refl
to_text-all (suc n) = leads-all (to_text (suc n)) (to_text-leads (suc n) (omega arith))

pub digits_value-to_text : (n : ℕ) → digits_value 0 (to_text n) ≡ n
unfolding digits_value
digits_value-to_text n = digits_value-to_digits (suc n) n [] (omega arith)
