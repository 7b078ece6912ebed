-- ===== src/Money/Allocation.antt =====
-- shared/money.ts: `allocate`.
use alpha_shadow.Prelude.{
  ℕ, zero, suc, ◌+◌, ◌-◌, ◌*◌, ◌/◌, ◌%◌, ◌≤◌, ◌≡◌, refl, ap, ◌∙◌, Bool, true, false, arith, ltb,
  if◌then◌else◌, Bool-cases, inl, inr, ◌⊎◌, Num, int, non_integer, ℤ, pos, negsuc, abs_ℤ, neg_of,
  ◌+ℤ◌, ◌-ℤ◌, ◌*ℤ◌, ltb_ℤ, quot_ℤ, sub_ℕ, sum_ℤ, signed, List, [], ◌∷◌, All, sum_of, length, Result,
  ok, err, ◌>>=◌, validation,
}
use native.Mathlib.Decide.{dec_lt}
use alpha_shadow.Money.Rounding.{quot-negsuc}
use alpha_shadow.Money.Currency.{CurrencyCode}
use alpha_shadow.Money.Amount.{Money, money, money-within_bound, max_minor_units}

-- The `for` loop over the parts left, at index `i`.
allocate_from : ℕ → ℕ → ℤ → ℤ → ℕ → CurrencyCode → Result (List Money)
allocate_from zero i base sign spread currency = ok []
allocate_from (suc left) i base sign spread currency = do
  share ← money (base +ℤ (if ltb i spread then sign else pos 0)) currency
  rest ← allocate_from left (i + 1) base sign spread currency
  ok (share ∷ rest)

-- What follows the check of `parts`, with `n = BigInt(parts)`.
allocate_parts : Money → ℕ → Result (List Money)
allocate_parts value parts =
    let total : ℤ = value.amount_minor in
    let base : ℤ = quot_ℤ total (pos parts) in
    let remainder : ℤ = total -ℤ base *ℤ pos parts in
    let sign : ℤ = if ltb_ℤ remainder (pos 0) then negsuc 0 else pos 1 in
    allocate_from parts 0 base sign (abs_ℤ remainder) value.currency

unfoldable pub allocate : Money → Num → Result (List Money)
unfolding allocate_parts allocate_from
allocate value non_integer = err validation
allocate value (int (negsuc n)) = err validation
allocate value (int (pos zero)) = err validation
allocate value (int (pos (suc n))) = allocate_parts value (suc n)

-- The magnitudes that the loop hands out.
shares : ℕ → ℕ → ℕ → ℕ → List ℕ
shares zero i base spread = []
shares (suc left) i base spread =
    (base + (if ltb i spread then 1 else 0)) ∷ shares left (i + 1) base spread

abbrev money_of : Bool → CurrencyCode → List ℕ → List Money
money_of s c [] = []
money_of s c (x ∷ xs) = record { amount_minor = signed s x; currency = c } ∷ money_of s c xs

signed-step :
    (s : Bool) (base : ℕ) (b : Bool)
    → signed s base +ℤ (if b then signed s 1 else pos 0) ≡ signed s (base + (if b then 1 else 0))
unfolding ◌+ℤ◌
signed-step s base b = ground arith

abs-signed : (s : Bool) (n : ℕ) → abs_ℤ (signed s n) ≡ n
abs-signed s n = ground arith

allocate_from-shares :
    (left i base spread : ℕ) (s : Bool) (c : CurrencyCode)
    → base + 1 ≤ max_minor_units ⊎ (base ≤ max_minor_units) × (spread ≤ i)
    → allocate_from left i (signed s base) (signed s 1) spread c
      ≡ ok (money_of s c (shares left i base spread))
unfolding allocate_from shares
allocate_from-shares zero i base spread s c h = refl
allocate_from-shares (suc left) i base spread s c h = rw (signed-step s base (ltb i spread)) (
    rw
      (money-within_bound (signed s (base + (if ltb i spread then 1 else 0))) c
        (rw (abs-signed s (base + (if ltb i spread then 1 else 0))) (ground arith)))
      (rw (allocate_from-shares left (i + 1) base spread s c (ground arith))))

length-shares :
    (left i base spread : ℕ) (s : Bool) (c : CurrencyCode)
    → length (money_of s c (shares left i base spread)) ≡ left
unfolding shares
length-shares zero i base spread s c = refl
length-shares (suc left) i base spread s c = ap suc (length-shares left (i + 1) base spread s c)

sum-shares :
    (left i base spread : ℕ)
    → spread ≤ i + left
    → sum_of (λ x. x) (shares left i base spread) ≡ left * base + (spread - i)
unfolding shares
sum-shares zero i base spread h = omega arith
sum-shares (suc left) i base spread h = ground (arith, sum-shares left (i + 1) base spread)

sum-money_of :
    (s : Bool) (c : CurrencyCode) (xs : List ℕ)
    → sum_ℤ (λ m. m.amount_minor) (money_of s c xs) ≡ signed s (sum_of (λ x. x) xs)
unfolding ◌+ℤ◌
sum-money_of s c [] = ground arith
sum-money_of s c (x ∷ xs) = rw (sum-money_of s c xs) (ground arith)

-- A share of a total of sign `s`, in its currency: the base magnitude or one unit more.
abbrev pub IsShare : Bool → CurrencyCode → ℕ → Money → Type 0
IsShare s c base m =
    (m.currency ≡ c) × ((m.amount_minor ≡ signed s base) ⊎ (m.amount_minor ≡ signed s (base + 1)))

shares-IsShare :
    (left i base spread : ℕ) (s : Bool) (c : CurrencyCode)
    → All (IsShare s c base) (money_of s c (shares left i base spread))
unfolding shares
shares-IsShare zero i base spread s c = tt
shares-IsShare (suc left) i base spread s c = (
  (
    refl,
    elim (Bool-cases (ltb i spread)) [
      | inl h ↦ inr (rw h)
      | inr h ↦ inl (rw h (ap (signed s) (omega arith)))
    ],
  ),
  shares-IsShare left (i + 1) base spread s c,
)

-- With nothing to spread the sign is not looked at.
allocate_from-sign :
    (left i : ℕ) (base sign : ℤ) (c : CurrencyCode)
    → allocate_from left i base sign 0 c ≡ allocate_from left i base (negsuc 0) 0 c
unfolding allocate_from
allocate_from-sign zero i base sign c = refl
allocate_from-sign (suc left) i base sign c =
    rw (allocate_from-sign left (i + 1) base sign c) (ground arith)

remainder-pos : (t k : ℕ) → pos t -ℤ pos (t / suc k) *ℤ pos (suc k) ≡ pos (t % suc k)
unfolding ◌-ℤ◌ ◌*ℤ◌
remainder-pos t k = ground arith

quot-pos : (t k : ℕ) → quot_ℤ (pos t) (pos (suc k)) ≡ pos (t / suc k)
unfolding quot_ℤ
quot-pos t k = ground arith

remainder-neg_of : (t q k : ℕ) → negsuc t -ℤ neg_of q *ℤ pos (suc k) ≡ sub_ℕ (q * suc k) (suc t)
unfolding ◌-ℤ◌ ◌*ℤ◌
remainder-neg_of t zero k = ground arith
remainder-neg_of t (suc q) k = ground arith

rest-neg_of : (t k : ℕ) → sub_ℕ (suc t / suc k * suc k) (suc t) ≡ neg_of (suc t % suc k)
rest-neg_of t k = ground arith

sign_of_negative : (r : ℕ) → (if ltb_ℤ (neg_of (suc r)) (pos 0) then negsuc 0 else pos 1) ≡ negsuc 0
sign_of_negative r = ground arith

abs_of_negative : (r : ℕ) → abs_ℤ (neg_of (suc r)) ≡ suc r
abs_of_negative r = ground arith

sign_of_positive : (r : ℕ) → (if ltb_ℤ (pos r) (pos 0) then negsuc 0 else pos 1) ≡ pos 1
sign_of_positive r = ground arith

allocate_from-neg :
    (left i : ℕ) (base : ℤ) (r : ℕ) (c : CurrencyCode)
    → allocate_from left i base
        (if ltb_ℤ (neg_of r) (pos 0) then negsuc 0 else pos 1)
        (abs_ℤ (neg_of r))
        c
      ≡ allocate_from left i base (negsuc 0) r c
allocate_from-neg left i base zero c = allocate_from-sign left i base (pos 1) c
allocate_from-neg left i base (suc r) c = rw (sign_of_negative r, abs_of_negative r)

fits :
    (t k : ℕ)
    → t ≤ max_minor_units
    → t / suc k + 1 ≤ max_minor_units ⊎ (t / suc k ≤ max_minor_units) × (t % suc k ≤ 0)
fits t k h = elim (dec_lt 0 (t % suc k)) [
  | yes p ↦ inl (grind arith)
  | no p ↦ inr (grind arith, omega arith)
]

allocate_parts-pos :
    (t k : ℕ) (c : CurrencyCode)
    → allocate_parts (record { amount_minor = pos t; currency = c }) (suc k)
      ≡ allocate_from (suc k) 0 (pos (t / suc k)) (pos 1) (t % suc k) c
unfolding allocate_parts
allocate_parts-pos t k c =
    rw (quot-pos t k)
      (rw (remainder-pos t k) (rw (sign_of_positive (t % suc k), abs-signed false (t % suc k))))

allocate_parts-negsuc :
    (t k : ℕ) (c : CurrencyCode)
    → allocate_parts (record { amount_minor = negsuc t; currency = c }) (suc k)
      ≡ allocate_from (suc k) 0 (neg_of (suc t / suc k)) (negsuc 0) (suc t % suc k) c
unfolding allocate_parts
allocate_parts-negsuc t k c = rw (quot-negsuc t k) (
    rw (remainder-neg_of t (suc t / suc k) k) (
      rw (rest-neg_of t k)
        (allocate_from-neg (suc k) 0 (neg_of (suc t / suc k)) (suc t % suc k) c)))

neg_of-suc : (t : ℕ) → neg_of (suc t) ≡ negsuc t
neg_of-suc t = ground arith

allocate_parts-signed :
    (s : Bool) (t k : ℕ) (c : CurrencyCode)
    → allocate_parts (record { amount_minor = signed s t; currency = c }) (suc k)
      ≡ allocate_from (suc k) 0 (signed s (t / suc k)) (signed s 1) (t % suc k) c
allocate_parts-signed false t k c = allocate_parts-pos t k c
allocate_parts-signed true zero k c =
    let q : 0 / suc k ≡ 0 = omega arith in
    let r : 0 % suc k ≡ 0 = omega arith in
    allocate_parts-pos 0 k c ∙ rw (q, r) (allocate_from-sign (suc k) 0 (pos 0) (pos 1) c)
allocate_parts-signed true (suc t) k c =
    ap (λ a. allocate_parts (record { amount_minor = a; currency = c }) (suc k)) (neg_of-suc t)
    ∙ allocate_parts-negsuc t k c

-- One result of an allocation, over the magnitude and the sign of the total.
pub record IsAllocation (s : Bool) (t parts : ℕ) (c : CurrencyCode) (ms : List Money) : Type 0 where
  pub count : length ms ≡ parts
  pub total : sum_ℤ (λ m. m.amount_minor) ms ≡ signed s t
  pub fair : All (IsShare s c (t / parts)) ms

-- Any total within the bound, of either sign, divides into any positive number of parts: there are
-- that many shares, they add up to exactly the total, and each is the total divided by the number of
-- parts, cut towards zero, or one unit further from zero.
pub allocate-IsAllocation :
    (s : Bool) (t k : ℕ) (c : CurrencyCode)
    → t ≤ max_minor_units
    → (ms : List Money) × (allocate
          (record { amount_minor = signed s t; currency = c })
          (int (pos (suc k)))
        ≡ ok ms)
      × IsAllocation s t (suc k) c ms
unfolding allocate
allocate-IsAllocation s t k c h = (
  money_of s c (shares (suc k) 0 (t / suc k) (t % suc k)),
  allocate_parts-signed s t k c
      ∙ allocate_from-shares (suc k) 0 (t / suc k) (t % suc k) s c (fits t k h),
  record {
    count = length-shares (suc k) 0 (t / suc k) (t % suc k) s c;
    total =
        sum-money_of s c (shares (suc k) 0 (t / suc k) (t % suc k))
        ∙ ap (signed s) (omega (arith, sum-shares (suc k) 0 (t / suc k) (t % suc k) (omega arith)));
    fair = shares-IsShare (suc k) 0 (t / suc k) (t % suc k) s c;
  },
)

-- A number of parts that is no positive integer is refused.
pub allocate_refuses :
    (value : Money) (n : ℕ)
    → (allocate value non_integer ≡ err validation)
      × (allocate value (int (pos 0)) ≡ err validation)
      × (allocate value (int (negsuc n)) ≡ err validation)
unfolding allocate
allocate_refuses value n = (refl, refl, refl)
