-- ===== src/Payments/Discount/Stacking.antt =====
-- Stacked discounts and the manager's override.
use alpha_shadow.Prelude.{
  ℕ, zero, suc, ◌≡◌, refl, sym, ◌∙◌, negsuc, false, arith, ℤ, pos, ◌<ℤ◌, List, [], ◌∷◌, All, ok,
  >>=-eq-ok, ok-injective,
}
use alpha_shadow.Payments.Discount.{
  StackedDiscountStage, StackedDiscountStageResult, run_stage, apply_discount_stages,
}
use alpha_shadow.Payments.Discount.Stage.{
  compute_discount_stage-IsStage, final_remainder, run_stage-eq-ok, apply-nil, apply-suc,
}
use alpha_shadow.Payments.Discount.Gate.{unrequired}
use mathlib.Core.Path.{subst}

-- Some of a positive subtotal is left wherever no stage asked for an override: no chain of discounts
-- takes all of it without one.
pub apply_discount_stages-override :
    (n : ℕ) (stages : List StackedDiscountStage) (rs : List StackedDiscountStageResult)
    → apply_discount_stages (pos (suc n)) stages ≡ ok rs
    → All (λ r. r.override_required ≡ false) rs
    → pos 0 <ℤ final_remainder (pos (suc n)) rs
apply_discount_stages-override n [] rs h free =
    subst (λ x. pos 0 <ℤ final_remainder (pos (suc n)) x)
      (ok-injective (sym (apply-nil (pos (suc n))) ∙ h)) (omega arith)
apply_discount_stages-override n (stage ∷ stages) rs h free =
    let (r, ran, after) =
      >>=-eq-ok (run_stage (pos (suc n)) stage) _ (sym (apply-suc n stage stages) ∙ h) in
    let (later, rest, made) =
      >>=-eq-ok (apply_discount_stages r.computation.remaining_subtotal_minor stages) _ after in
    let (computed, gated) = run_stage-eq-ok (pos (suc n)) stage r ran in
    let is =
      (compute_discount_stage-IsStage (pos (suc n)) stage.request r.computation computed).2 in
    let same : r ∷ later ≡ rs = ok-injective made in
    let (here, there) = subst (All (λ x. x.override_required ≡ false)) (sym same) free in
    let left =
      unrequired n r.computation stage.request stage.caps is
        (record { required = r.override_required; reason = r.override_reason }) gated here in
    let (k, e) = positive r.computation.remaining_subtotal_minor left in
    subst (λ x. pos 0 <ℤ final_remainder (pos (suc n)) x) same
      (subst (λ x. pos 0 <ℤ final_remainder x later) (sym e)
        (apply_discount_stages-override k stages later
          (subst (λ x. apply_discount_stages x stages ≡ ok later) e rest) there))
  where
    positive : (a : ℤ) → pos 0 <ℤ a → (k : ℕ) × (a ≡ pos (suc k))
    positive (pos zero) p = absurd (omega arith)
    positive (pos (suc k)) p = (k, refl)
    positive (negsuc k) p = absurd (omega arith)
