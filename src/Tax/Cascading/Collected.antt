-- ===== src/Tax/Cascading/Collected.antt =====
-- The groups that a priority collects for one line.
use mathlib.Core.Path.{subst}
use alpha_shadow.Prelude.{
  ℕ, ◌+◌, ◌≡◌, ◌≢◌, ◌⊎◌, refl, ap, ◌∙◌, false, arith, if◌then◌else◌, inl, inr, ℤ, ◌+ℤ◌, All, List,
  [], ◌∷◌, Text, text_eq, text_beq, text_beq_iff, ok, >>=-eq-ok, ok-injective,
}
use alpha_shadow.Prelude.Assoc.{get}
use alpha_shadow.Tax.Math.{assert_tax_amount}
use alpha_shadow.Tax.Cascading.{
  ApplicableTax, TaxComputationPlan, Work, GroupId, or_none, or_zero_minor, collect_taxes,
  collect_plans,
}
use alpha_shadow.Tax.Cascading.Stages.{total_at}
use alpha_shadow.Tax.Cascading.Bases.{count_at}
use alpha_shadow.Tax.Cascading.Groups.{
  count_groups, AreGroups, OnLine, collect_taxes-AreGroups, collect_taxes-count,
}

-- The plan is one of the plans, and the only one of its line.
abbrev pub Once : TaxComputationPlan → List TaxComputationPlan → Type 0
Once plan [] = ⊥
Once plan (q ∷ rest) =
    ((q ≡ plan) × All (λ r. r.order_line_id ≢ plan.order_line_id) rest)
    ⊎ ((q.order_line_id ≢ plan.order_line_id) × Once plan rest)

module _ (p : ℕ) (all_taxes : List (Text × List ApplicableTax)) (totals : List (Text × ℤ))
    (plan : TaxComputationPlan) where
  -- The groups hold the line's works, and `n` of them more than before.
  abbrev Collects : List (GroupId × List Work) → (ℕ → ℕ) → List (GroupId × List Work) → Type 0
  Collects groups n after =
      AreGroups
        (OnLine plan.order_line_id (or_none (get plan.order_line_id all_taxes)) p
          (plan.amount_minor +ℤ total_at plan.order_line_id totals))
        after
      × ((k : ℕ)
          → count_groups k plan.order_line_id after
            ≡ count_groups k plan.order_line_id groups + n k)

  abbrev AreOn : List (GroupId × List Work) → Type 0
  AreOn = AreGroups (
      OnLine plan.order_line_id (or_none (get plan.order_line_id all_taxes)) p
        (plan.amount_minor +ℤ total_at plan.order_line_id totals))

  taxes_of_other :
      (q : TaxComputationPlan) (other_base : ℤ) (qs : List ApplicableTax)
      (groups : List (GroupId × List Work))
      → q.order_line_id ≢ plan.order_line_id
      → AreOn groups
      → Collects groups (λ k. 0) (collect_taxes p q other_base 0 qs groups)
  taxes_of_other q other_base qs groups apart h =
      let differs : text_beq q.order_line_id plan.order_line_id ≡ false =
        grind (arith, apart, (text_beq_iff q.order_line_id plan.order_line_id).0) in
      let Fact : Work → Type 0 =
        OnLine plan.order_line_id (or_none (get plan.order_line_id all_taxes)) p
          (plan.amount_minor +ℤ total_at plan.order_line_id totals) in
      (
        collect_taxes-AreGroups Fact p q other_base qs
            (λ place tax at of_priority mine. absurd (apart mine)) [] qs 0 groups refl refl h,
        λ k.
            collect_taxes-count Fact p q other_base qs
              (λ place tax at of_priority mine. absurd (apart mine)) k plan.order_line_id qs 0
              groups
            ∙ ap
                (λ b.
                  count_groups k plan.order_line_id groups + (if b then count_at p k 0 qs else 0))
                differs,
      )

  collect_plans-off :
      (plans : List TaxComputationPlan) (groups : List (GroupId × List Work))
      {after : List (GroupId × List Work)}
      → All (λ r. r.order_line_id ≢ plan.order_line_id) plans
      → AreOn groups
      → collect_plans p all_taxes totals plans groups ≡ ok after
      → Collects groups (λ k. 0) after
  unfolding collect_plans
  collect_plans-off [] groups apart h k = rw (← ok-injective k) (h, λ k. omega arith)
  collect_plans-off (q ∷ rest) groups (apart, all_apart) h k =
      let q_base = q.amount_minor +ℤ or_zero_minor (get q.order_line_id totals) in
      let (_, _, k1) = >>=-eq-ok (assert_tax_amount q_base) _ k in
      let (on, count) =
        taxes_of_other q q_base (or_none (get q.order_line_id all_taxes)) groups apart h in
      let (later, rest_count) = collect_plans-off rest _ all_apart on k1 in
      (later, λ k. omega (arith, count k, rest_count k))

  pub collect_plans-Collects :
      (plans : List TaxComputationPlan) (groups : List (GroupId × List Work))
      {after : List (GroupId × List Work)}
      → Once plan plans
      → AreOn groups
      → collect_plans p all_taxes totals plans groups ≡ ok after
      → Collects groups (λ k. count_at p k 0 (or_none (get plan.order_line_id all_taxes))) after
  unfolding collect_plans
  collect_plans-Collects [] groups once h k = absurd once
  collect_plans-Collects (q ∷ rest) groups {after} (inl (same, all_apart)) h k =
      let ts = or_none (get plan.order_line_id all_taxes) in
      let line_base = plan.amount_minor +ℤ or_zero_minor (get plan.order_line_id totals) in
      let (_, _, k1) =
        >>=-eq-ok (assert_tax_amount line_base) _
          (subst (λ r. collect_plans p all_taxes totals (r ∷ rest) groups ≡ ok after) same k) in
      let on =
        collect_taxes-AreGroups (OnLine plan.order_line_id ts p line_base) p plan line_base ts
          (λ place tax at of_priority mine. (refl, at, of_priority)) [] ts 0 groups refl refl h in
      let count = λ (k : ℕ).
        collect_taxes-count (OnLine plan.order_line_id ts p line_base) p plan line_base ts
          (λ place tax at of_priority mine. (refl, at, of_priority)) k plan.order_line_id ts 0
          groups
        ∙ ap (λ b. count_groups k plan.order_line_id groups + (if b then count_at p k 0 ts else 0))
            ((text_beq_iff plan.order_line_id plan.order_line_id).1 refl) in
      let (later, rest_count) = collect_plans-off rest _ all_apart on k1 in
      (later, λ k. omega (arith, count k, rest_count k))
  collect_plans-Collects (q ∷ rest) groups (inr (apart, once)) h k =
      let q_base = q.amount_minor +ℤ or_zero_minor (get q.order_line_id totals) in
      let (_, _, k1) = >>=-eq-ok (assert_tax_amount q_base) _ k in
      let (on, count) =
        taxes_of_other q q_base (or_none (get q.order_line_id all_taxes)) groups apart h in
      let (later, rest_count) = collect_plans-Collects rest _ once on k1 in
      (later, λ k. omega (arith, count k, rest_count k))
