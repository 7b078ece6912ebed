-- ===== src/Prelude/Equality.antt =====
-- Equality tests as an interface, and the string keys of the source: lists of UTF-16 code units,
-- compared as JavaScript compares strings.
use Prim.Native.Nat.{ℕ}
use Prim.Native.Char.{code}
use Prim.Native.String.{String}
use mathlib.Core.Path.{◌≡◌, refl}
use mathlib.Core.Logic.{◌↔◌, ◌≢◌}
use mathlib.Core.Bool.{Bool, true, false, ◌&&◌, ◌||◌}
use mathlib.Core.List.{List, [], ◌∷◌}
use native.Mathlib.Omega.{arith}
use alpha_shadow.Prelude.Tests.{ltb, ◌==◌}

pub record Eq {u} (T : Type u) : Type u where
  pub beq : T → T → Bool
  pub beq_iff : (s t : T) → (beq s t ≡ true) ↔ (s ≡ t)

infix 50 ◌===◌
abbrev pub ◌===◌ {u} : {T : Type u} ⦃test : Eq T⦄ → T → T → Bool
◌===◌ ⦃test⦄ = test.beq

abbrev pub Text : Type 0
Text = List ℕ

-- A literal of the source.
abbrev pub codes : String → Text
codes String.[] = []
codes (String.◌∷◌ c s) = code c ∷ codes s

unfoldable pub text_beq : Text → Text → Bool
text_beq [] [] = true
text_beq (x ∷ xs) (y ∷ ys) = (x == y) && text_beq xs ys
text_beq _ _ = false

-- `a < b` on strings.
unfoldable pub text_ltb : Text → Text → Bool
text_ltb _ [] = false
text_ltb [] (y ∷ ys) = true
text_ltb (x ∷ xs) (y ∷ ys) = ltb x y || (x == y) && text_ltb xs ys

pub text_beq_sound : (a b : Text) → text_beq a b ≡ true → a ≡ b
unfolding text_beq
text_beq_sound [] [] h = refl
text_beq_sound [] (y ∷ ys) h = cc
text_beq_sound (x ∷ xs) [] h = cc
text_beq_sound (x ∷ xs) (y ∷ ys) h = ground (arith, text_beq_sound xs ys)

pub text_beq_refl : (a : Text) → text_beq a a ≡ true
unfolding text_beq
text_beq_refl [] = refl
text_beq_refl (x ∷ xs) = ground (arith, text_beq_refl xs)

pub text_beq_iff : (a b : Text) → (text_beq a b ≡ true) ↔ (a ≡ b)
text_beq_iff a b = (text_beq_sound a b, λ e. rw e (text_beq_refl b))

pub text_beq-false : (a b : Text) → text_beq a b ≡ false → a ≢ b
text_beq-false a b other h = grind (arith, (text_beq_iff a b).1 h)

instance abbrev pub text_eq : Eq Text
text_eq = record { beq = text_beq; beq_iff = text_beq_iff }

pub text_ltb_irrefl : (a : Text) → text_ltb a a ≡ false
unfolding text_ltb
text_ltb_irrefl [] = refl
text_ltb_irrefl (x ∷ xs) = ground (arith, text_ltb_irrefl xs)

pub text_ltb_trans :
    (a b c : Text) → text_ltb a b ≡ true → text_ltb b c ≡ true → text_ltb a c ≡ true
unfolding text_ltb
text_ltb_trans a b [] h k = k
text_ltb_trans a [] (z ∷ zs) h k = absurd (ground arith)
text_ltb_trans [] (y ∷ ys) (z ∷ zs) h k = refl
text_ltb_trans (x ∷ xs) (y ∷ ys) (z ∷ zs) h k = ground (arith, text_ltb_trans xs ys zs)

-- The order is total: of two different strings one is below the other.
pub text_ltb-total : (a b : Text) → text_ltb a b ≡ false → text_ltb b a ≡ false → a ≡ b
unfolding text_ltb
text_ltb-total [] [] h k = refl
text_ltb-total [] (y ∷ ys) h k = cc
text_ltb-total (x ∷ xs) [] h k = cc
text_ltb-total (x ∷ xs) (y ∷ ys) h k = ground (arith, text_ltb-total xs ys)
