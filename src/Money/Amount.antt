-- ===== src/Money/Amount.antt =====
-- shared/money.ts: the `Money` value, its bounds and its arithmetic.
use alpha_shadow.Prelude.{
  ℕ, ◌+◌, ◌^◌, ◌≤◌, ◌≡◌, Bool, ◌||◌, ◌&&◌, arith, if◌then◌else◌, ℤ, pos, negsuc, abs_ℤ, neg_ℤ, ◌+ℤ◌,
  ◌-ℤ◌, ◌*ℤ◌, ltb_ℤ, eqb_ℤ, sum_ℤ, int_laws, List, [], ◌∷◌, All, sum_of, text_eq, text_beq_iff,
  ◌===◌, Result, ok, err, ◌>>=◌, ◌>>◌, guard, validation, currency_mismatch, >>=-eq-ok, abs-add-le,
  sym, ap, ◌∙◌, +ℤ_assoc,
}
use alpha_shadow.Money.Currency.{CurrencyCode}
use alpha_shadow.Money.Rounding.{divide_round_half_to_even}

pub record Money : Type 0 where
  pub amount_minor : ℤ
  pub currency : CurrencyCode

abbrev pub max_minor_units : ℕ
max_minor_units = 10 ^ 18

-- `DEFAULT_MAX_MINOR_UNITS`
abbrev pub default_max_minor_units : ℤ
default_max_minor_units = pos max_minor_units

-- `money(amountMinor, currency, maxMinorUnits)`
unfoldable pub money_within : ℤ → CurrencyCode → ℤ → Result Money
money_within amount currency max =
    if ltb_ℤ max amount || ltb_ℤ amount (neg_ℤ max)
    then err validation
    else ok (record { amount_minor = amount; currency = currency })

unfoldable pub money : ℤ → CurrencyCode → Result Money
unfolding money_within
money amount currency = money_within amount currency default_max_minor_units

unfoldable pub zero_money : CurrencyCode → Result Money
unfolding money
zero_money currency = money (pos 0) currency

unfoldable pub assert_same_currency : Money → Money → Result (Unit {0})
assert_same_currency left right = guard (left.currency === right.currency) currency_mismatch

unfoldable pub add : Money → Money → Result Money
unfolding assert_same_currency money
add left right = do
  assert_same_currency left right
  money (left.amount_minor +ℤ right.amount_minor) left.currency

unfoldable pub subtract : Money → Money → Result Money
unfolding assert_same_currency money
subtract left right = do
  assert_same_currency left right
  money (left.amount_minor -ℤ right.amount_minor) left.currency

unfoldable pub negate : Money → Result Money
unfolding money
negate value = money (neg_ℤ value.amount_minor) value.currency

-- The loop of `sum`'s `reduce`.
unfoldable pub sum_from : Money → List Money → Result Money
sum_from acc [] = ok acc
sum_from acc (cur ∷ rest) = do next ← add acc cur; sum_from next rest

unfoldable pub sum : CurrencyCode → List Money → Result Money
unfolding sum_from
sum currency values = do start ← zero_money currency; sum_from start values

-- -1, 0 or 1.
unfoldable pub compare : Money → Money → Result ℤ
unfolding assert_same_currency
compare left right = do
  assert_same_currency left right
  ok (
      if ltb_ℤ left.amount_minor right.amount_minor
      then negsuc 0
      else if ltb_ℤ right.amount_minor left.amount_minor
      then pos 1
      else pos 0)

unfoldable pub equals : Money → Money → Bool
equals left right = (left.currency === right.currency) && eqb_ℤ left.amount_minor right.amount_minor

unfoldable pub scale : Money → ℤ → ℤ → Result Money
unfolding money
scale value numerator denominator = do
  amount ← divide_round_half_to_even (value.amount_minor *ℤ numerator) denominator
  money amount value.currency

-- The bound of `money`, in magnitude.
pub money-within_bound :
    (a : ℤ) (c : CurrencyCode)
    → abs_ℤ a ≤ max_minor_units
    → money a c ≡ ok (record { amount_minor = a; currency = c })
unfolding money
money-within_bound a c h = ground arith

pub money-eq-ok :
    (a : ℤ) (c : CurrencyCode) {m : Money}
    → money a c ≡ ok m
    → (m ≡ record { amount_minor = a; currency = c }) × (abs_ℤ a ≤ max_minor_units)
unfolding money
money-eq-ok a c h = ground arith

add-eq-ok :
    (l r : Money) {m : Money}
    → add l r ≡ ok m
    → (r.currency ≡ l.currency)
      × (m ≡ record { amount_minor = l.amount_minor +ℤ r.amount_minor; currency = l.currency })
      × (abs_ℤ (l.amount_minor +ℤ r.amount_minor) ≤ max_minor_units)
unfolding add
add-eq-ok l r h = ground (arith, text_beq_iff l.currency r.currency)

add-zero : (a : ℤ) → a +ℤ pos 0 ≡ a
add-zero a = omega int_laws

zero-add : (a : ℤ) → pos 0 +ℤ a ≡ a
zero-add a = omega int_laws

add-same :
    (l r : Money)
    → r.currency ≡ l.currency
    → abs_ℤ (l.amount_minor +ℤ r.amount_minor) ≤ max_minor_units
    → add l r
      ≡ ok (record { amount_minor = l.amount_minor +ℤ r.amount_minor; currency = l.currency })
unfolding add
add-same l r e h =
    rw ((text_beq_iff l.currency r.currency).1 (sym e))
      (money-within_bound (l.amount_minor +ℤ r.amount_minor) l.currency h)

sum_from-eq-ok :
    (acc : Money) (vs : List Money) {m : Money}
    → sum_from acc vs ≡ ok m
    → All (λ v. v.currency ≡ acc.currency) vs
      × (m.currency ≡ acc.currency)
      × (m.amount_minor ≡ acc.amount_minor +ℤ sum_ℤ (λ v. v.amount_minor) vs)
unfolding sum_from
sum_from-eq-ok acc [] {m} h =
    let e : acc ≡ m = cc in (tt, ap (λ (x : Money). x.currency) (sym e), rw (← e) (omega int_laws))
sum_from-eq-ok acc (v ∷ vs) {m} h =
    let (next, added, rest) = >>=-eq-ok (add acc v) (λ next. sum_from next vs) h in
    let (same, is, bounded) = add-eq-ok acc v added in
    let (all_same, currency, total) = sum_from-eq-ok next vs rest in
    let c : next.currency ≡ acc.currency = ap (λ (x : Money). x.currency) is in
    let a : next.amount_minor ≡ acc.amount_minor +ℤ v.amount_minor =
      ap (λ (x : Money). x.amount_minor) is in
    ((same, rw c at all_same), currency ∙ c, total ∙ rw a (omega int_laws))

sum_from-same :
    (acc : Money) (vs : List Money)
    → All (λ v. v.currency ≡ acc.currency) vs
    → abs_ℤ acc.amount_minor + sum_of (λ v. abs_ℤ v.amount_minor) vs ≤ max_minor_units
    → sum_from acc vs
      ≡ ok (record {
        amount_minor = acc.amount_minor +ℤ sum_ℤ (λ v. v.amount_minor) vs;
        currency = acc.currency;
      })
unfolding sum_from
sum_from-same acc [] h b = rw (add-zero acc.amount_minor)
sum_from-same acc (v ∷ vs) (same, h) b =
    rw (add-same acc v same (omega (arith, abs-add-le acc.amount_minor v.amount_minor))) (
      sum_from-same
        (record { amount_minor = acc.amount_minor +ℤ v.amount_minor; currency = acc.currency }) vs h
        (omega (arith, abs-add-le acc.amount_minor v.amount_minor))
      ∙ rw (+ℤ_assoc acc.amount_minor v.amount_minor (sum_ℤ (λ v. v.amount_minor) vs)))

-- A result of `sum` has the requested currency, which every value has, and is their exact sum.
sum-eq-ok :
    (c : CurrencyCode) (vs : List Money) (m : Money)
    → sum c vs ≡ ok m
    → All (λ v. v.currency ≡ c) vs
      × (m ≡ record { amount_minor = sum_ℤ (λ v. v.amount_minor) vs; currency = c })
unfolding sum zero_money
sum-eq-ok c vs m h =
    let zero : Money = record { amount_minor = pos 0; currency = c } in
    let (all_same, currency, total) = sum_from-eq-ok zero vs h in
    (
      all_same,
      λ i. record {
        amount_minor = (total ∙ zero-add (sum_ℤ (λ v. v.amount_minor) vs)) i;
        currency = currency i;
      },
    )

-- `sum` succeeds on values of the requested currency whose magnitudes add up to at most the bound,
-- and then returns their exact sum.
sum-same :
    (c : CurrencyCode) (vs : List Money)
    → All (λ v. v.currency ≡ c) vs
    → sum_of (λ v. abs_ℤ v.amount_minor) vs ≤ max_minor_units
    → sum c vs ≡ ok (record { amount_minor = sum_ℤ (λ v. v.amount_minor) vs; currency = c })
unfolding sum zero_money
sum-same c vs h b =
    sum_from-same (record { amount_minor = pos 0; currency = c }) vs h (omega arith)
    ∙ rw (zero-add (sum_ℤ (λ v. v.amount_minor) vs))
