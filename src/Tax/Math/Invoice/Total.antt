-- ===== src/Tax/Math/Invoice/Total.antt =====
-- The allocations of an invoice add up to the tax of the invoice's sum, rounded once.
use alpha_shadow.Prelude.{
  ℕ, zero, suc, ◌+◌, ◌-◌, ◌*◌, ◌/◌, ◌≤◌, ◌<◌, ◌≡◌, refl, sym, ap, ◌∙◌, Bool, true, false, not,
  arith, int, pos, pos_part, ◌-ℤ◌, eqb_ℤ, List, [], ◌∷◌, All, All-map, ok-injective, guard-not,
  sum_of, length, Text, text_eq, text_beq_iff, text_beq_refl, ok, ◌>>=◌, guard, validation,
  >>=-eq-ok,
}
use alpha_shadow.Prelude.Assoc.{get, has, put}
use alpha_shadow.Prelude.Sort.{sort, All-sort, length-sort}
use mathlib.Core.Path.{subst}
use native.Mathlib.Decide.{dec_le}
use alpha_shadow.Tax.Math.{
  assert_tax_amount, assert_tax_rate_bps, half_up, round_tax_half_up, tax_denominator,
}
use alpha_shadow.Tax.Math.Rounding.{
  IsHalfUp, half_up-IsHalfUp, assert_tax_amount-eq-ok, assert_tax_rate_bps-eq-ok,
  round_tax_half_up-pos, mul_mono,
}
use alpha_shadow.Tax.Math.Invoice.{
  InvoiceTaxShare, Ranked, Floors, floor_shares, ranks_before, or_zero, distribute,
  allocate_invoice_tax,
}

-- The sum of the values of a map.
abbrev pub map_total : List (Text × ℕ) → ℕ
map_total = sum_of (λ e. e.1)

total-put-new :
    (k : Text) (v : ℕ) (m : List (Text × ℕ))
    → has k m ≡ false
    → map_total (put k v m) ≡ map_total m + v
unfolding has put
total-put-new k v [] h = omega arith
total-put-new k v ((j, w) ∷ m) h = ground (arith, total-put-new k v m)

-- One unit more for a key that is there.
total-put-more :
    (k : Text) (m : List (Text × ℕ))
    → has k m ≡ true
    → map_total (put k (or_zero (get k m) + 1) m) ≡ map_total m + 1
unfolding has put get
total-put-more k [] h = cc
total-put-more k ((j, w) ∷ m) h = ground (arith, total-put-more k m)

has-put : (k j : Text) (v : ℕ) (m : List (Text × ℕ)) → has j m ≡ true → has j (put k v m) ≡ true
unfolding has put
has-put k j v [] h = cc
has-put k j v ((i, w) ∷ m) h = ground (arith, has-put k j v m, text_beq_iff i k, text_beq_iff i j)

has-put_self : (k : Text) (v : ℕ) (m : List (Text × ℕ)) → has k (put k v m) ≡ true
unfolding has put
has-put_self k v [] = rw (text_beq_refl k)
has-put_self k v ((i, w) ∷ m) = ground (arith, has-put_self k v m)

one_less : (n : ℕ) → pos (suc n) -ℤ pos 1 ≡ pos n
unfolding ◌-ℤ◌
one_less n = ground arith

suc_is_not_zero : (n : ℕ) → eqb_ℤ (pos (suc n)) (pos 0) ≡ false
suc_is_not_zero n = ground arith

distribute-suc :
    (r : Ranked) (rs : List Ranked) (n : ℕ) (m : List (Text × ℕ))
    → distribute (r ∷ rs) (pos (suc n)) m
      ≡ distribute rs (pos n) (put r.id (or_zero (get r.id m) + 1) m)
unfolding distribute
distribute-suc r rs n m = rw (suc_is_not_zero n) (rw (one_less n))

-- Handing out `n` units to at least `n` keys of the map raises its total by `n`.
total-distribute :
    (rs : List Ranked) (n : ℕ) (m : List (Text × ℕ))
    → n ≤ length rs
    → All (λ r. has r.id m ≡ true) rs
    → map_total (distribute rs (pos n) m) ≡ map_total m + n
unfolding distribute
total-distribute [] n m h k = omega arith
total-distribute (r ∷ rs) zero m h k = ground arith
total-distribute (r ∷ rs) (suc n) m h (here, k) =
    let more : List (Text × ℕ) = put r.id (or_zero (get r.id m) + 1) m in
    ap map_total (distribute-suc r rs n m)
    ∙ total-distribute rs n more (omega arith) (
        All-map (λ s. has s.id m ≡ true) (λ s. has s.id more ≡ true) rs
          (λ s. has-put r.id s.id (or_zero (get r.id m) + 1) m) k)
    ∙ omega (arith, total-put-more r.id m here)

-- The exact numerator of a share, of which its floor and its remainder are the parts.
abbrev pub numerator : ℕ → InvoiceTaxShare → ℕ
numerator bps share = pos_part share.amount_minor * bps

-- What the first loop has computed, over the values that it started from.
record IsFloored (bps d : ℕ) (shares : List InvoiceTaxShare) (m : List (Text × ℕ)) (t f : ℕ)
    (r : Floors) : Type 0 where
  total : r.total_numerator ≡ t + sum_of (numerator bps) shares
  floors : r.floors ≡ f + sum_of (λ s. numerator bps s / d) shares
  amounts : map_total r.amounts ≡ map_total m + sum_of (λ s. numerator bps s / d) shares
  count : length r.ranked ≡ length shares
  listed : All (λ k. has k.id r.amounts ≡ true) r.ranked
  kept : (k : Text) → has k m ≡ true → has k r.amounts ≡ true

floor_shares-IsFloored :
    (bps d : ℕ) (m : List (Text × ℕ)) (t f : ℕ) (shares : List InvoiceTaxShare) (r : Floors)
    → floor_shares bps d m t f shares ≡ ok r
    → IsFloored bps d shares m t f r
unfolding floor_shares
floor_shares-IsFloored bps d m t f [] r h = rw (← ok-injective h) (record {
  total = omega arith;
  floors = omega arith;
  amounts = omega arith;
  count = refl;
  listed = tt;
  kept = λ k e. e;
})
floor_shares-IsFloored bps d m t f (s ∷ ss) r h =
    let (a, checked, after) = >>=-eq-ok (assert_tax_amount s.amount_minor) _ h in
    let (_, fresh, after') = >>=-eq-ok (guard (not (has s.id m)) validation) _ after in
    let (later, rest, last) =
      >>=-eq-ok (floor_shares bps d (put s.id (a * bps / d) m) (t + a * bps) (f + a * bps / d) ss) _
        after' in
    let ih =
      floor_shares-IsFloored bps d (put s.id (a * bps / d) m) (t + a * bps) (f + a * bps / d) ss
        later rest in
    let e : pos_part s.amount_minor ≡ a =
      ap pos_part (assert_tax_amount-eq-ok s.amount_minor checked).0 in
    let new : has s.id m ≡ false = guard-not (has s.id m) validation fresh in
    rw (← ok-injective last) (record {
      total = rw e (omega (arith, ih.total));
      floors = rw e (omega (arith, ih.floors));
      amounts = rw e (omega (arith, ih.amounts, total-put-new s.id (a * bps / d) m new));
      count = ap suc ih.count;
      listed = (ih.kept s.id (has-put_self s.id (a * bps / d) m), ih.listed);
      kept = λ k x. ih.kept k (has-put s.id k (a * bps / d) m x);
    })

-- The rounded total exceeds the floors by at most one unit for each share.
div_sum :
    (bps d : ℕ) (shares : List InvoiceTaxShare)
    → 0 < d
    → (d * sum_of (λ s. numerator bps s / d) shares ≤ sum_of (numerator bps) shares)
      × (sum_of (numerator bps) shares + length shares
          ≤ d * sum_of (λ s. numerator bps s / d) shares + d * length shares)
div_sum bps d [] h = (omega arith, omega arith)
div_sum bps d (s ∷ ss) h =
    let (low, high) = div_sum bps d ss h in (omega (arith, low, high), omega (arith, low, high))

surplus :
    (n d f k : ℕ)
    → 0 < d
    → d * f ≤ n
    → n + k ≤ d * f + d * k
    → (f ≤ half_up n d) × (half_up n d - f ≤ k)
surplus n d f k h low high = let r = half_up-IsHalfUp n d h in (above r.high, below r.low)
  where
    above : 2 * n < 2 * (half_up n d * d) + d → f ≤ half_up n d
    above bound = elim (dec_le f (half_up n d)) [
      | yes p ↦ p
      | no p ↦ absurd (omega (arith, mul_mono (half_up n d + 1) f d (omega arith)))
    ]

    below : 2 * (half_up n d * d) ≤ 2 * n + d → half_up n d - f ≤ k
    below bound = elim (dec_le (half_up n d) (f + k)) [
      | yes p ↦ omega arith
      | no p ↦ absurd (omega (arith, mul_mono (f + k + 1) (half_up n d) d (omega arith)))
    ]

rate_value : (bps : ℕ) {b : ℕ} → assert_tax_rate_bps (int (pos bps)) ≡ ok b → b ≡ bps
rate_value bps h = ground (arith, (assert_tax_rate_bps-eq-ok (int (pos bps)) h).0)

difference : (a b : ℕ) → b ≤ a → pos a -ℤ pos b ≡ pos (a - b)
unfolding ◌-ℤ◌
difference a b h = ground arith

-- The units that remain after the floors, on the list of the ranking.
abbrev hand_out : ℕ → Floors → List (Text × ℕ)
hand_out d f =
    distribute (sort ranks_before f.ranked) (pos (half_up f.total_numerator d) -ℤ pos f.floors)
      f.amounts

total-hand_out :
    (bps d : ℕ) (shares : List InvoiceTaxShare) (f : Floors)
    → 0 < d
    → IsFloored bps d shares [] 0 0 f
    → map_total (hand_out d f) ≡ half_up (sum_of (numerator bps) shares) d
total-hand_out bps d shares f positive is =
    let (low, high) = div_sum bps d shares positive in
    let floors : ℕ = sum_of (λ s. numerator bps s / d) shares in
    let exact : f.floors ≡ floors = is.floors ∙ omega arith in
    let (floors_le, few) =
      surplus (sum_of (numerator bps) shares) d floors (length shares) positive low high in
    let t : f.total_numerator ≡ sum_of (numerator bps) shares = is.total ∙ omega arith in
    let rounded : ℕ = half_up (sum_of (numerator bps) shares) d in
    rw (t, exact)
      (rw (difference rounded floors floors_le) (
        total-distribute (sort ranks_before f.ranked) (rounded - floors) f.amounts
          (omega (arith, length-sort ranks_before f.ranked, is.count))
          (All-sort ranks_before (λ k. has k.id f.amounts ≡ true) f.ranked is.listed)
        ∙ omega (arith, is.amounts)))

-- The steps of a call that returns.
pub allocate_invoice_tax-eq-ok :
    (shares : List InvoiceTaxShare) (bps : ℕ) (inclusive : Bool) {m : List (Text × ℕ)}
    → allocate_invoice_tax shares (int (pos bps)) inclusive ≡ ok m
    → (f : Floors) × (floor_shares bps (tax_denominator bps inclusive) [] 0 0 shares ≡ ok f)
      × (hand_out (tax_denominator bps inclusive) f ≡ m)
unfolding allocate_invoice_tax
allocate_invoice_tax-eq-ok shares bps inclusive h =
    let d = tax_denominator bps inclusive in
    let (b, checked, floored) = >>=-eq-ok (assert_tax_rate_bps (int (pos bps))) _ h in
    let (f, done, rounded) =
      >>=-eq-ok (floor_shares bps d [] 0 0 shares)
        (λ f. do
          rounded ← round_tax_half_up (pos f.total_numerator) (pos d)
          ok (distribute (sort ranks_before f.ranked) (pos rounded -ℤ pos f.floors) f.amounts))
        (rw (rate_value bps checked) at floored) in
    (
      f,
      done,
      ok-injective (rw (round_tax_half_up-pos f.total_numerator d (omega arith)) at rounded),
    )

-- The tax of an invoice is rounded once, on the exact sum of its shares: whatever the shares, what
-- `allocateInvoiceTax` hands out adds up to exactly that rounded tax.
pub allocate_invoice_tax-total :
    (shares : List InvoiceTaxShare) (bps : ℕ) (inclusive : Bool) (m : List (Text × ℕ))
    → allocate_invoice_tax shares (int (pos bps)) inclusive ≡ ok m
    → IsHalfUp (sum_of (numerator bps) shares) (tax_denominator bps inclusive) (map_total m)
allocate_invoice_tax-total shares bps inclusive m h =
    let d = tax_denominator bps inclusive in
    let (f, done, e) = allocate_invoice_tax-eq-ok shares bps inclusive h in
    let total =
      total-hand_out bps d shares f (omega arith)
        (floor_shares-IsFloored bps d [] 0 0 shares f done) in
    subst (IsHalfUp (sum_of (numerator bps) shares) d) (sym total ∙ ap map_total e)
      (half_up-IsHalfUp (sum_of (numerator bps) shares) d (omega arith))
