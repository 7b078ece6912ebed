-- ===== src/Money/Storage/RoundTrip.antt =====
-- Amounts that are stored and read back.
use alpha_shadow.Prelude.{
  ℕ, suc, ◌≡◌, refl, sym, ap, ◌∙◌, true, false, ◌==◌, all, arith, inl, inr, Bool-cases, ℤ, pos,
  negsuc, signed, [], ◌∷◌, Text, text_eq, text_beq, text_beq_iff, codes, ok,
}
use alpha_shadow.Money.Decimal.{is_digit, is_integer_part, digits_value, to_text}
use alpha_shadow.Money.Decimal.RoundTrip.{
  to_text-is_integer_part, to_text-all, digits_value-to_text,
}
use alpha_shadow.Money.Storage.{minor_units_from_db, minor_units_to_db}

tail_of : Text → Text
tail_of [] = []
tail_of (c ∷ rest) = rest

not_minus_zero :
    (n : ℕ) (text : Text) → digits_value 0 text ≡ suc n → text_beq (45 ∷ text) (codes "-0") ≡ false
unfolding digits_value tail_of
not_minus_zero n text value = elim (Bool-cases (text_beq (45 ∷ text) (codes "-0"))) [
  | inl same ↦
      let tail = ap tail_of ((text_beq_iff (45 ∷ text) (codes "-0")).0 same) in
      let zero_value = ap (λ t. digits_value 0 t) tail in ground (arith, sym value ∙ zero_value)
  | inr other ↦ other
]

-- A text of digits is canonical as it stands, and is not `-0`.
digits-read :
    (text : Text)
    → is_integer_part text ≡ true
    → all is_digit text ≡ true
    → minor_units_from_db text ≡ ok (pos (digits_value 0 text))
unfolding minor_units_from_db is_integer_part text_beq
digits-read [] h k = ground (arith, h)
digits-read (c ∷ rest) h k = let sign : (c == 45) ≡ false = ground (arith, k) in rw (sign, h) refl

negative_of : (n : ℕ) → signed true (suc n) ≡ negsuc n
negative_of n = ground arith

negative-read :
    (n : ℕ) (text : Text)
    → digits_value 0 text ≡ suc n
    → is_integer_part text ≡ true
    → minor_units_from_db (45 ∷ text) ≡ ok (negsuc n)
unfolding minor_units_from_db
negative-read n text value h = rw (not_minus_zero n text value, h, value) (ap ok (negative_of n))

-- An amount of any size and sign that is stored is read back as it was.
pub minor_units_from_db-minor_units_to_db :
    (n : ℤ) → minor_units_from_db (minor_units_to_db n) ≡ ok n
unfolding minor_units_to_db
minor_units_from_db-minor_units_to_db (pos n) =
    digits-read (to_text n) (to_text-is_integer_part n) (to_text-all n)
    ∙ ap (λ v. ok (pos v)) (digits_value-to_text n)
minor_units_from_db-minor_units_to_db (negsuc n) =
    negative-read n (to_text (suc n)) (digits_value-to_text (suc n))
      (to_text-is_integer_part (suc n))
