-- ===== src/Money/Rounding.antt =====
-- shared/money.ts: `divideRoundHalfToEven`.
use native.Mathlib.Nat.{mul-div_cancel, mul-mod_left}
use alpha_shadow.Prelude.{
  ℕ, suc, zero, ◌+◌, ◌-◌, ◌*◌, ◌/◌, ◌%◌, ◌≤◌, ◌<◌, ◌≡◌, ◌≢◌, refl, ◌⊎◌, arith, ltb, ◌==◌,
  if◌then◌else◌, inl, inr, ℤ, pos, negsuc, abs_ℤ, neg_ℤ, neg_of, pos_part, neg_part, sub_ℕ, ◌+ℤ◌,
  ◌-ℤ◌, ◌*ℤ◌, ltb_ℤ, eqb_ℤ, quot_ℤ, rem_ℤ, Result, ok, err, validation,
}

-- The rounding proper, for a positive denominator.
unfoldable pub round_quotient : ℤ → ℤ → ℤ
round_quotient n d =
    let quotient : ℤ = quot_ℤ n d in
    let twice_remainder : ℕ = abs_ℤ (rem_ℤ n d) * 2 in
    let away : ℤ = if ltb_ℤ n (pos 0) then quotient -ℤ pos 1 else quotient +ℤ pos 1 in
    if ltb twice_remainder (abs_ℤ d)
    then quotient
    else if ltb (abs_ℤ d) twice_remainder
    then away
    else if abs_ℤ (rem_ℤ quotient (pos 2)) == 0
    then quotient
    else away

unfoldable pub divide_round_half_to_even : ℤ → ℤ → Result ℤ
unfolding round_quotient
divide_round_half_to_even numerator denominator =
    if eqb_ℤ denominator (pos 0)
    then err validation
    else let n : ℤ = if ltb_ℤ denominator (pos 0) then neg_ℤ numerator else numerator in
      let d : ℤ = if ltb_ℤ denominator (pos 0) then neg_ℤ denominator else denominator in
      ok (round_quotient n d)

-- The same on magnitudes.
unfoldable pub half_even : ℕ → ℕ → ℕ
half_even m d =
    if ltb (m % d * 2) d
    then m / d
    else if ltb d (m % d * 2)
    then m / d + 1
    else if m / d % 2 == 0
    then m / d
    else m / d + 1

half_even-cases :
    (m d : ℕ)
    → ((half_even m d ≡ m / d) × (m % d * 2 ≤ d) × (m % d * 2 ≡ d → m / d % 2 ≡ 0))
      ⊎ ((half_even m d ≡ m / d + 1) × (d ≤ m % d * 2) × (m % d * 2 ≡ d → m / d % 2 ≡ 1))
unfolding half_even
half_even-cases m d = ground arith

-- The magnitude is the nearest one, and the even one of two nearest.
pub half_even-nearest :
    (m d : ℕ)
    → 0 < d
    → (2 * m ≤ 2 * (half_even m d * d) + d)
      × (2 * (half_even m d * d) ≤ 2 * m + d)
      × (2 * m ≡ 2 * (half_even m d * d) + d → half_even m d % 2 ≡ 0)
      × (2 * (half_even m d * d) ≡ 2 * m + d → half_even m d % 2 ≡ 0)
half_even-nearest m d h = elim (half_even-cases m d) [
  | inl (e, low, tie) ↦
      rw e (omega arith, omega arith, λ t. tie (omega arith), λ t. tie (omega arith))
  | inr (e, high, tie) ↦ rw e (
    omega arith,
    omega arith,
    λ t. let k : m / d % 2 ≡ 1 = tie (omega arith) in omega arith,
    λ t. let k : m / d % 2 ≡ 1 = tie (omega arith) in omega arith,
  )
]

round_quotient-pos : (m d : ℕ) → round_quotient (pos m) (pos (suc d)) ≡ pos (half_even m (suc d))
unfolding round_quotient half_even quot_ℤ rem_ℤ ◌+ℤ◌ ◌-ℤ◌
round_quotient-pos m d = ground arith

pub quot-negsuc : (m d : ℕ) → quot_ℤ (negsuc m) (pos (suc d)) ≡ neg_of (suc m / suc d)
unfolding quot_ℤ
quot-negsuc m d = ground arith

abs-rem-negsuc : (m d : ℕ) → abs_ℤ (rem_ℤ (negsuc m) (pos (suc d))) ≡ suc m % suc d
unfolding rem_ℤ
abs-rem-negsuc m d = ground arith

abs-rem-neg_of : (q : ℕ) → abs_ℤ (rem_ℤ (neg_of q) (pos 2)) ≡ q % 2
unfolding rem_ℤ
abs-rem-neg_of q = ground arith

neg_of-sub : (q : ℕ) → neg_of q -ℤ pos 1 ≡ neg_of (q + 1)
unfolding ◌-ℤ◌
neg_of-sub q = ground arith

mul-pos : (v p : ℕ) → pos v *ℤ pos p ≡ pos (v * p)
unfolding ◌*ℤ◌
mul-pos v p = ground arith

divide-round_quotient :
    (n : ℤ) (d : ℕ)
    → divide_round_half_to_even n (pos (suc d)) ≡ ok (round_quotient n (pos (suc d)))
unfolding divide_round_half_to_even
divide-round_quotient n d = ground arith

half_even-exact : (v d : ℕ) → half_even (v * suc d) (suc d) ≡ v
unfolding half_even
half_even-exact v d =
    rw (mul-mod_left v (suc d), mul-div_cancel v {n = suc d} (omega arith)) (ground arith)

-- A quotient of natural numbers is one.
pub divide-pos :
    (v u d : ℕ)
    → 0 < d
    → divide_round_half_to_even (pos v *ℤ pos u) (pos d) ≡ ok (pos (half_even (v * u) d))
divide-pos v u zero h = ground arith
divide-pos v u (suc d) h =
    rw (mul-pos v u, divide-round_quotient (pos (v * u)) d, round_quotient-pos (v * u) d) refl

-- A multiple of the denominator is divided exactly.
pub divide-exact :
    (v d : ℕ) → 0 < d → divide_round_half_to_even (pos v *ℤ pos d) (pos d) ≡ ok (pos v)
divide-exact v zero h = ground arith
divide-exact v (suc d) h =
    rw
      (
        mul-pos v (suc d),
        divide-round_quotient (pos (v * suc d)) d,
        round_quotient-pos (v * suc d) d,
        half_even-exact v d,
      )
      refl

round_quotient-negsuc :
    (m d : ℕ) → round_quotient (negsuc m) (pos (suc d)) ≡ neg_of (half_even (suc m) (suc d))
unfolding round_quotient half_even
round_quotient-negsuc m d =
    rw
      (
        quot-negsuc m d,
        abs-rem-negsuc m d,
        abs-rem-neg_of (suc m / suc d),
        neg_of-sub (suc m / suc d),
      )
      (ground arith)

-- `q` is an integer nearest to n / d, and an even one where two are nearest.
pub record IsHalfEven (n d q : ℤ) : Type 0 where
  pub near : 2 * abs_ℤ (n -ℤ q *ℤ d) ≤ abs_ℤ d
  pub even_on_tie : 2 * abs_ℤ (n -ℤ q *ℤ d) ≡ abs_ℤ d → abs_ℤ q % 2 ≡ 0

error-pos : (m q d : ℕ) → abs_ℤ (pos m -ℤ pos q *ℤ pos (suc d)) ≡ (m - q * suc d) + (q * suc d - m)
unfolding ◌-ℤ◌ ◌*ℤ◌
error-pos m q d = ground arith

error-negsuc :
    (m q d : ℕ)
    → abs_ℤ (negsuc m -ℤ neg_of q *ℤ pos (suc d)) ≡ (suc m - q * suc d) + (q * suc d - suc m)
unfolding ◌-ℤ◌ ◌*ℤ◌
error-negsuc m zero d = ground arith
error-negsuc m (suc q) d = ground arith

abs-neg_of : (q : ℕ) → abs_ℤ (neg_of q) ≡ q
abs-neg_of q = ground arith

round_quotient-IsHalfEven :
    (n : ℤ) (d : ℕ) → IsHalfEven n (pos (suc d)) (round_quotient n (pos (suc d)))
round_quotient-IsHalfEven (pos m) d =
    let (up, down, tie_up, tie_down) = half_even-nearest m (suc d) (omega arith) in
    rw (round_quotient-pos m d) (record {
      near = omega (arith, error-pos m (half_even m (suc d)) d);
      even_on_tie = λ t. grind (arith, error-pos m (half_even m (suc d)) d);
    })
round_quotient-IsHalfEven (negsuc m) d =
    let (up, down, tie_up, tie_down) = half_even-nearest (suc m) (suc d) (omega arith) in
    rw (round_quotient-negsuc m d) (record {
      near = omega (arith, error-negsuc m (half_even (suc m) (suc d)) d);
      even_on_tie = λ t. grind (
        arith,
        error-negsuc m (half_even (suc m) (suc d)) d,
        abs-neg_of (half_even (suc m) (suc d)),
      );
    })

pos_part-neg : (d : ℤ) → pos_part (neg_ℤ d) ≡ neg_part d
pos_part-neg d = ground arith

neg_part-neg : (d : ℤ) → neg_part (neg_ℤ d) ≡ pos_part d
neg_part-neg d = ground arith

neg-sub_ℕ : (a b : ℕ) → sub_ℕ a b ≡ neg_ℤ (sub_ℕ b a)
neg-sub_ℕ a b = ground arith

mul-neg : (q d : ℤ) → q *ℤ neg_ℤ d ≡ neg_ℤ (q *ℤ d)
unfolding ◌*ℤ◌
mul-neg q d = rw (pos_part-neg d, neg_part-neg d) (neg-sub_ℕ _ _)

error-neg : (n q d : ℤ) → abs_ℤ (neg_ℤ n -ℤ q *ℤ neg_ℤ d) ≡ abs_ℤ (n -ℤ q *ℤ d)
unfolding ◌-ℤ◌
error-neg n q d = rw (mul-neg q d) (
    rw (pos_part-neg n, neg_part-neg n, pos_part-neg (q *ℤ d), neg_part-neg (q *ℤ d))
      (ground arith))

abs-neg : (d : ℤ) → abs_ℤ (neg_ℤ d) ≡ abs_ℤ d
abs-neg d = ground arith

-- Dividing by a negative number is dividing both signs reversed.
IsHalfEven-neg : (n d q : ℤ) → IsHalfEven (neg_ℤ n) (neg_ℤ d) q → IsHalfEven n d q
IsHalfEven-neg n d q h = record {
  near = omega (arith, error-neg n q d, abs-neg d, h.near);
  even_on_tie = λ t. h.even_on_tie (omega (arith, error-neg n q d, abs-neg d, t));
}

neg-negsuc : (d : ℕ) → neg_ℤ (negsuc d) ≡ pos (suc d)
neg-negsuc d = ground arith

-- Every division by a number other than 0 returns the nearest integer, with ties to even.
pub divide_round_half_to_even-IsHalfEven :
    (n d : ℤ) → d ≢ pos 0 → (q : ℤ) × (divide_round_half_to_even n d ≡ ok q) × IsHalfEven n d q
unfolding divide_round_half_to_even
divide_round_half_to_even-IsHalfEven n (pos zero) h = absurd (h refl)
divide_round_half_to_even-IsHalfEven n (pos (suc d)) h =
    (round_quotient n (pos (suc d)), ground arith, round_quotient-IsHalfEven n d)
divide_round_half_to_even-IsHalfEven n (negsuc d) h = (
  round_quotient (neg_ℤ n) (pos (suc d)),
  ground arith,
  IsHalfEven-neg n (negsuc d) _ (rw (neg-negsuc d) (round_quotient-IsHalfEven (neg_ℤ n) d)),
)
