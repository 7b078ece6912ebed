-- ===== src/Money/Decimal/Printing.antt =====
-- The texts of `minorToDecimalText` are read back as the amounts that were printed.
use mathlib.Core.Path.{subst}
use native.Mathlib.Nat.{mod-lt, div-add-mod'}
use alpha_shadow.Prelude.{
  ◌+◌, ◌*◌, ℕ, zero, suc, ◌/◌, ◌%◌, ◌^◌, eq_of_parts, ◌≤◌, ◌≡◌, refl, sym, ap, ◌∙◌, true, false,
  ◌==◌, if◌then◌else◌, arith, int, ℤ, pos, negsuc, neg_ℤ, abs_ℤ, ltb_ℤ, all, length, [], ◌∷◌, ◌++◌,
  Text, ok, ok-injective,
}
use alpha_shadow.Money.Decimal.{
  max_scale, is_digit, is_integer_part, is_fraction_part, must_match, digits_value,
  non_negative_decimal_text_to_minor, decimal_text_to_minor, last_digits, to_text,
  minor_to_decimal_text, negated,
}
use alpha_shadow.Money.Decimal.Value.{ten_pow-pos, assert_digits-ok}
use alpha_shadow.Money.Decimal.RoundTrip.{
  digits_value-last_digits, length-last_digits, all-last_digits, split_point-digits,
  split_point-point, fraction-eq-ok, digits_value-append, to_text-is_integer_part, to_text-all,
  digits_value-to_text,
}

-- The text of a magnitude.
abbrev body : ℕ → ℕ → Text
body amount scale =
    if scale == 0
    then to_text (amount / 10 ^ scale)
    else to_text (amount / 10 ^ scale) ++ (46 ∷ last_digits scale (amount % 10 ^ scale) [])

must_match-digits :
    (text : Text)
    → all is_digit text ≡ true
    → is_integer_part text ≡ true
    → must_match text ≡ ok (text, [])
unfolding must_match
must_match-digits text digits whole = rw (split_point-digits text digits, whole) refl

must_match-point :
    (whole fraction : Text)
    → all is_digit whole ≡ true
    → is_integer_part whole ≡ true
    → is_fraction_part fraction ≡ true
    → must_match (whole ++ (46 ∷ fraction)) ≡ ok (whole, fraction)
unfolding must_match
must_match-point whole fraction digits integer part =
    rw (split_point-point whole fraction digits, integer, part) refl

fraction_part :
    (text : Text) → 1 ≤ length text → all is_digit text ≡ true → is_fraction_part text ≡ true
unfolding is_fraction_part
fraction_part [] h d = ground arith
fraction_part (c ∷ rest) h d = d

append-nil : (text : Text) → text ++ [] ≡ text
append-nil [] = refl
append-nil (c ∷ rest) = ap (λ t. c ∷ t) (append-nil rest)

quotient_remainder : (n d : ℕ) → digits_value (n / d * d + n % d) [] ≡ n
unfolding digits_value
quotient_remainder n d = div-add-mod' n d

body-worth :
    (amount scale : ℕ)
    → digits_value 0 (to_text (amount / 10 ^ scale) ++ last_digits scale (amount % 10 ^ scale) [])
      ≡ amount
body-worth amount scale =
    digits_value-append 0 (to_text (amount / 10 ^ scale))
      (last_digits scale (amount % 10 ^ scale) [])
    ∙ ap (λ m. digits_value m (last_digits scale (amount % 10 ^ scale) []))
        (digits_value-to_text (amount / 10 ^ scale))
    ∙ digits_value-last_digits scale (amount / 10 ^ scale) (amount % 10 ^ scale) []
        (mod-lt amount (ten_pow-pos scale))
    ∙ quotient_remainder amount (10 ^ scale)

whole_worth : (amount : ℕ) → digits_value 0 (to_text (amount / 10 ^ 0) ++ []) ≡ amount
whole_worth amount =
    ap (digits_value 0) (append-nil (to_text (amount / 10 ^ 0)))
    ∙ digits_value-to_text (amount / 10 ^ 0)
    ∙ omega arith

suc_not_zero : (k : ℕ) → (suc k == 0) ≡ false
suc_not_zero k = ground arith

body-exact :
    (amount scale : ℕ)
    → scale ≤ max_scale
    → non_negative_decimal_text_to_minor (body amount scale) (int (pos scale)) ≡ ok (pos amount)
body-exact amount zero small =
    let whole : Text = to_text (amount / 10 ^ 0) in
    fraction-eq-ok whole whole [] 0 amount
      (must_match-digits whole (to_text-all (amount / 10 ^ 0))
        (to_text-is_integer_part (amount / 10 ^ 0)))
      small refl (whole_worth amount)
body-exact amount (suc k) small =
    let whole : Text = to_text (amount / 10 ^ suc k) in
    let fraction : Text = last_digits (suc k) (amount % 10 ^ suc k) [] in
    let long : length fraction ≡ suc k =
      length-last_digits (suc k) (amount % 10 ^ suc k) [] ∙ omega arith in
    rw (suc_not_zero k) (
      fraction-eq-ok (whole ++ (46 ∷ fraction)) whole fraction (suc k) amount
        (must_match-point whole fraction (to_text-all (amount / 10 ^ suc k))
          (to_text-is_integer_part (amount / 10 ^ suc k))
          (fraction_part fraction (omega (arith, long))
            (all-last_digits (suc k) (amount % 10 ^ suc k) [] refl)))
        small long (body-worth amount (suc k)))

-- A text that starts with an integer part has no sign.
unsigned :
    (whole rest : Text) (scale : ℕ)
    → is_integer_part whole ≡ true
    → decimal_text_to_minor (whole ++ rest) (int (pos scale))
      ≡ non_negative_decimal_text_to_minor (whole ++ rest) (int (pos scale))
unfolding decimal_text_to_minor is_integer_part
unsigned [] rest scale h = cc
unsigned (c ∷ []) rest scale h = ground arith
unsigned (c ∷ d ∷ more) rest scale h = ground arith

body-unsigned :
    (amount scale : ℕ)
    → decimal_text_to_minor (body amount scale) (int (pos scale))
      ≡ non_negative_decimal_text_to_minor (body amount scale) (int (pos scale))
body-unsigned amount zero =
    let whole : Text = to_text (amount / 10 ^ 0) in
    subst
      (λ t.
        decimal_text_to_minor t (int (pos 0)) ≡ non_negative_decimal_text_to_minor t (int (pos 0)))
      (append-nil whole) (unsigned whole [] 0 (to_text-is_integer_part (amount / 10 ^ 0)))
body-unsigned amount (suc k) = rw (suc_not_zero k) (
    unsigned (to_text (amount / 10 ^ suc k)) (46 ∷ last_digits (suc k) (amount % 10 ^ suc k) [])
      (suc k) (to_text-is_integer_part (amount / 10 ^ suc k)))

pos-sign : (n : ℕ) → ltb_ℤ (pos n) (pos 0) ≡ false
pos-sign n = ground arith

negsuc-sign : (n : ℕ) → ltb_ℤ (negsuc n) (pos 0) ≡ true
negsuc-sign n = ground arith

abbrev signed_text : ℤ → ℕ → Text
signed_text minor scale =
    if ltb_ℤ minor (pos 0) then 45 ∷ body (abs_ℤ minor) scale else body (abs_ℤ minor) scale

negated-text :
    (text : Text) (scale : ℕ)
    → decimal_text_to_minor (45 ∷ text) (int (pos scale))
      ≡ negated (non_negative_decimal_text_to_minor text (int (pos scale)))
unfolding decimal_text_to_minor
negated-text text scale = refl

signed_text-exact :
    (minor : ℤ) (scale : ℕ)
    → scale ≤ max_scale
    → decimal_text_to_minor (signed_text minor scale) (int (pos scale)) ≡ ok minor
signed_text-exact (pos n) scale small = rw (pos-sign n) (
    body-unsigned (n + 0) scale
    ∙ body-exact (n + 0) scale small
    ∙ ap (λ m. ok (pos m)) (omega arith))
signed_text-exact (negsuc n) scale small = rw (negsuc-sign n) (
    negated-text (body (0 + suc n) scale) scale
    ∙ ap negated (body-exact (0 + suc n) scale small)
    ∙ ap ok (eq_of_parts (neg_ℤ (pos (0 + suc n))) (negsuc n) (ground arith)))

minor_to_decimal_text-signed_text :
    (minor : ℤ) (scale : ℕ)
    → scale ≤ max_scale
    → minor_to_decimal_text minor (int (pos scale)) ≡ ok (signed_text minor scale)
unfolding minor_to_decimal_text
minor_to_decimal_text-signed_text minor scale small = rw (assert_digits-ok scale small) refl

-- Every amount prints at every scale of up to eight digits, and its text is read back as the amount.
pub decimal_text_to_minor-minor_to_decimal_text :
    (minor : ℤ) (scale : ℕ)
    → scale ≤ max_scale
    → (text : Text) × (minor_to_decimal_text minor (int (pos scale)) ≡ ok text)
      × (decimal_text_to_minor text (int (pos scale)) ≡ ok minor)
decimal_text_to_minor-minor_to_decimal_text minor scale small = (
  signed_text minor scale,
  minor_to_decimal_text-signed_text minor scale small,
  signed_text-exact minor scale small,
)

-- The same for amounts that are not negative and the parser that takes no sign.
pub non_negative_decimal_text_to_minor-minor_to_decimal_text :
    (amount scale : ℕ) {text : Text}
    → scale ≤ max_scale
    → minor_to_decimal_text (pos amount) (int (pos scale)) ≡ ok text
    → non_negative_decimal_text_to_minor text (int (pos scale)) ≡ ok (pos amount)
non_negative_decimal_text_to_minor-minor_to_decimal_text amount scale small h =
    let printed = sym (minor_to_decimal_text-signed_text (pos amount) scale small) ∙ h in
    rw (← ok-injective printed) (
      rw (pos-sign amount)
        (body-exact (amount + 0) scale small ∙ ap (λ m. ok (pos m)) (omega arith)))

-- A text that is the print of an amount is read back as the amount.
pub printed-read :
    (minor : ℤ) (scale : ℕ) {text : Text}
    → scale ≤ max_scale
    → minor_to_decimal_text minor (int (pos scale)) ≡ ok text
    → decimal_text_to_minor text (int (pos scale)) ≡ ok minor
printed-read minor scale small h =
    let (text, printed, is) = decimal_text_to_minor-minor_to_decimal_text minor scale small in
    ap (λ t. decimal_text_to_minor t (int (pos scale))) (ok-injective (sym h ∙ printed)) ∙ is
