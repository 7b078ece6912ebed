-- ===== src/Payments/Discount/Stage.antt =====
-- What one discount stage and a chain of stages can take from a subtotal.
use alpha_shadow.Prelude.{
  ℕ, ◌<◌, ◌≡◌, refl, true, false, not, arith, ltb, leb, length, sym, ap, zero, suc, ◌∙◌, ◌-◌,
  if◌then◌else◌, inl, inr, Bool-cases, ◌↔◌, ◌⊎◌, ℤ, pos, negsuc, ◌+ℤ◌, ◌-ℤ◌, ◌≤ℤ◌, ◌<ℤ◌, ltb_ℤ,
  eqb_ℤ, sum_ℤ, int_laws, +ℤ_assoc, List, [], ◌∷◌, All, ok, err, ◌>>=◌, guard, validation,
  >>=-eq-ok, ok-injective,
}
use mathlib.Core.Path.{subst}
use alpha_shadow.Payments.Discount.{
  ParsedDiscountRequest, DiscountStageComputation, requested_amount, cap_stage,
  compute_discount_stage, StackedDiscountStage, StackedDiscountStageResult, nothing_left, run_stage,
  apply_discount_stages, discount_override_requirement,
}

-- A stage takes the smaller of what is asked and what is there: never less than nothing, never more
-- than the subtotal.
pub record IsStage (remaining : ℤ) (s : DiscountStageComputation) : Type 0 where
  pub asked : pos 0 <ℤ s.requested_minor
  pub at_most_asked : s.applied_minor ≤ℤ s.requested_minor
  pub at_most_there : s.applied_minor ≤ℤ remaining
  pub one_of_them : (s.applied_minor ≡ s.requested_minor) ⊎ (s.applied_minor ≡ remaining)
  pub split : s.applied_minor +ℤ s.remaining_subtotal_minor ≡ remaining
  pub applied_nonneg : pos 0 ≤ℤ s.applied_minor
  pub rest_nonneg : pos 0 ≤ℤ s.remaining_subtotal_minor
  pub zeroes : (s.zeroes_out_subtotal ≡ true) ↔ (s.remaining_subtotal_minor ≡ pos 0)

-- The branches of a stage, for numbers that are not negative.
cap_stage-pos :
    (n m : ℕ)
    → cap_stage (pos n) (pos m) ≡ (
        if leb m 0
        then err validation
        else ok (record {
          requested_minor = pos m;
          applied_minor = pos (if ltb m n then m else n);
          zeroes_out_subtotal = leb n m;
          remaining_subtotal_minor = pos (n - m);
        }))
unfolding cap_stage ◌-ℤ◌
cap_stage-pos n m = ground arith

IsStage-of :
    (n m : ℕ)
    → 0 < m
    → IsStage (pos n) (record {
      requested_minor = pos m;
      applied_minor = pos (if ltb m n then m else n);
      zeroes_out_subtotal = leb n m;
      remaining_subtotal_minor = pos (n - m);
    })
IsStage-of n m h = record {
  asked = omega arith;
  at_most_asked = ground arith;
  at_most_there = ground arith;
  one_of_them = ground arith;
  split = unfold ◌+ℤ◌ in ground arith;
  applied_nonneg = omega arith;
  rest_nonneg = omega arith;
  zeroes = (λ e. ground arith, λ e. ground arith);
}

cap_stage-IsStage :
    (n : ℕ) (requested : ℤ) (s : DiscountStageComputation)
    → cap_stage (pos n) requested ≡ ok s
    → IsStage (pos n) s
cap_stage-IsStage n (negsuc q) s e = absurd (unfold cap_stage in ground arith)
cap_stage-IsStage n (pos m) s e = elim (Bool-cases (leb m 0)) [
  | inl none_asked ↦ absurd (let k = sym (cap_stage-pos n m) ∙ e in ground arith)
  | inr some_asked ↦
      let k : ok _ ≡ ok s = rw some_asked at (sym (cap_stage-pos n m) ∙ e) in
      subst (IsStage (pos n)) (ok-injective k) (IsStage-of n m (ground arith))
]

requested_kept :
    (n : ℕ) (q : ℤ) (s : DiscountStageComputation)
    → cap_stage (pos n) q ≡ ok s
    → q ≡ s.requested_minor
unfolding cap_stage
requested_kept n q s h = ground arith

-- Whatever the request, a stage that returns had a subtotal that is not negative, used the
-- requested amount of the request, and took the smaller of that and the subtotal.
pub compute_discount_stage-IsStage :
    (remaining : ℤ) (request : ParsedDiscountRequest) (s : DiscountStageComputation)
    → compute_discount_stage remaining request ≡ ok s
    → (pos 0 ≤ℤ remaining)
      × (requested_amount remaining request.kind request ≡ ok s.requested_minor)
      × IsStage remaining s
unfolding compute_discount_stage
compute_discount_stage-IsStage (negsuc n) request s h = absurd (ground arith)
compute_discount_stage-IsStage (pos n) request s h =
    let (_, _, after) = >>=-eq-ok (guard (not (ltb_ℤ (pos n) (pos 0))) validation) _ h in
    let (q, asked, capped) = >>=-eq-ok (requested_amount (pos n) request.kind request) _ after in
    (omega arith, asked ∙ ap ok (requested_kept n q s capped), cap_stage-IsStage n q s capped)

-- The remainder after all the stages.
abbrev pub final_remainder : ℤ → List StackedDiscountStageResult → ℤ
final_remainder remaining [] = remaining
final_remainder remaining (r ∷ rs) = final_remainder r.computation.remaining_subtotal_minor rs

pub run_stage-eq-ok :
    (remaining : ℤ) (stage : StackedDiscountStage) (x : StackedDiscountStageResult)
    → run_stage remaining stage ≡ ok x
    → (compute_discount_stage remaining stage.request ≡ ok x.computation)
      × (discount_override_requirement x.computation stage.request stage.caps
          ≡ ok (record { required = x.override_required; reason = x.override_reason }))
unfolding run_stage
run_stage-eq-ok remaining stage x h =
    let (c, computed, after) = >>=-eq-ok (compute_discount_stage remaining stage.request) _ h in
    let (q, gated, made) =
      >>=-eq-ok (discount_override_requirement c stage.request stage.caps) _ after in
    let e = ok-injective made in
    (
      computed ∙ ap (λ (y : StackedDiscountStageResult). ok y.computation) e,
      subst
          (λ y.
            discount_override_requirement y.computation stage.request stage.caps
            ≡ ok (record { required = y.override_required; reason = y.override_reason }))
          e gated,
    )

suc_is_not_zero : (n : ℕ) → eqb_ℤ (pos (suc n)) (pos 0) ≡ false
suc_is_not_zero n = ground arith

pub apply-nil : (remaining : ℤ) → apply_discount_stages remaining [] ≡ ok []
unfolding apply_discount_stages
apply-nil remaining = refl

pub apply-zero :
    (stage : StackedDiscountStage) (rest : List StackedDiscountStage)
    → apply_discount_stages (pos 0) (stage ∷ rest)
      ≡ (apply_discount_stages (pos 0) rest >>= λ later. ok (nothing_left stage ∷ later))
unfolding apply_discount_stages
apply-zero stage rest = refl

pub apply-suc :
    (n : ℕ) (stage : StackedDiscountStage) (rest : List StackedDiscountStage)
    → apply_discount_stages (pos (suc n)) (stage ∷ rest) ≡ (do
      result ← run_stage (pos (suc n)) stage
      later ← apply_discount_stages result.computation.remaining_subtotal_minor rest
      ok (result ∷ later))
unfolding apply_discount_stages
apply-suc n stage rest = rw (suc_is_not_zero n, apply_discount_stages)

-- What is left and what the stages have taken, over the subtotal `n` that they started from.
pub record IsChain (n : ℕ) (stages : List StackedDiscountStage)
    (rs : List StackedDiscountStageResult) : Type 0 where
  pub count : length rs ≡ length stages
  pub conserved : sum_ℤ (λ r. r.computation.applied_minor) rs +ℤ final_remainder (pos n) rs ≡ pos n
  pub applied_nonneg : All (λ r. pos 0 ≤ℤ r.computation.applied_minor) rs
  pub rest_nonneg : pos 0 ≤ℤ final_remainder (pos n) rs

-- A stage that must not be negative leaves a natural number.
pub nonneg : (a : ℤ) → pos 0 ≤ℤ a → (k : ℕ) × (a ≡ pos k)
nonneg (pos k) h = (k, refl)
nonneg (negsuc k) h = absurd (omega arith)

zero-add : (a : ℤ) → pos 0 +ℤ a ≡ a
zero-add a = omega int_laws

IsChain-skip :
    (stage : StackedDiscountStage) (stages : List StackedDiscountStage)
    (rs : List StackedDiscountStageResult)
    → IsChain 0 stages rs
    → IsChain 0 (stage ∷ stages) (nothing_left stage ∷ rs)
IsChain-skip stage stages rs h = record {
  count = ap suc h.count;
  conserved =
      ap (λ x. x +ℤ final_remainder (pos 0) rs)
        (zero-add (sum_ℤ (λ r. r.computation.applied_minor) rs))
      ∙ h.conserved;
  applied_nonneg = (omega arith, h.applied_nonneg);
  rest_nonneg = h.rest_nonneg;
}

IsChain-run :
    (n k : ℕ) (stage : StackedDiscountStage) (stages : List StackedDiscountStage)
    (r : StackedDiscountStageResult) (rs : List StackedDiscountStageResult)
    → IsStage (pos n) r.computation
    → r.computation.remaining_subtotal_minor ≡ pos k
    → IsChain k stages rs
    → IsChain n (stage ∷ stages) (r ∷ rs)
IsChain-run n k stage stages r rs s e h = record {
  count = ap suc h.count;
  conserved =
      ap
        (λ x.
          r.computation.applied_minor
          +ℤ sum_ℤ (λ y. y.computation.applied_minor) rs
          +ℤ final_remainder x rs)
        e
      ∙ +ℤ_assoc r.computation.applied_minor (sum_ℤ (λ y. y.computation.applied_minor) rs)
          (final_remainder (pos k) rs)
      ∙ ap (λ x. r.computation.applied_minor +ℤ x) (h.conserved ∙ sym e)
      ∙ s.split;
  applied_nonneg = (s.applied_nonneg, h.applied_nonneg);
  rest_nonneg = rw e h.rest_nonneg;
}

-- However many discounts are stacked on a subtotal that is not negative, what they take and what they
-- leave add up to it, no stage takes a negative amount, and the remainder is never negative.
pub apply_discount_stages-IsChain :
    (n : ℕ) (stages : List StackedDiscountStage) (rs : List StackedDiscountStageResult)
    → apply_discount_stages (pos n) stages ≡ ok rs
    → IsChain n stages rs
apply_discount_stages-IsChain n [] rs h =
    subst (IsChain n []) (ok-injective (sym (apply-nil (pos n)) ∙ h)) (record {
      count = refl;
      conserved = zero-add (pos n);
      applied_nonneg = tt;
      rest_nonneg = omega arith;
    })
apply_discount_stages-IsChain zero (stage ∷ stages) rs h =
    let (later, rest, made) =
      >>=-eq-ok (apply_discount_stages (pos 0) stages) _ (sym (apply-zero stage stages) ∙ h) in
    subst (IsChain 0 (stage ∷ stages)) (ok-injective made)
      (IsChain-skip stage stages later (apply_discount_stages-IsChain 0 stages later rest))
apply_discount_stages-IsChain (suc n) (stage ∷ stages) rs h =
    let (r, ran, after) =
      >>=-eq-ok (run_stage (pos (suc n)) stage) _ (sym (apply-suc n stage stages) ∙ h) in
    let (later, rest, made) =
      >>=-eq-ok (apply_discount_stages r.computation.remaining_subtotal_minor stages) _ after in
    let is =
      (compute_discount_stage-IsStage (pos (suc n)) stage.request r.computation
        (run_stage-eq-ok (pos (suc n)) stage r ran).0).2 in
    let (k, e) = nonneg r.computation.remaining_subtotal_minor is.rest_nonneg in
    subst (IsChain (suc n) (stage ∷ stages)) (ok-injective made) (
      IsChain-run (suc n) k stage stages r later is e
        (apply_discount_stages-IsChain k stages later (rw e at rest)))
