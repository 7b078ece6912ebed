-- ===== src/Tax/Cascading/Lines.antt =====
-- The cascade of every line.
use mathlib.Core.Path.{subst}
use alpha_shadow.Prelude.{
  ℕ, ◌≡◌, refl, sym, ap, ◌∙◌, Bool-cases, arith, if◌then◌else◌, inl, inr, ℤ, pos, ◌+ℤ◌, Option,
  none, some, All, List, [], ◌∷◌, ◌++◌, map, Text, text_eq, text_beq, ok, >>=-eq-ok, ok-injective,
  sum_of, sum_of-append,
}
use alpha_shadow.Prelude.Assoc.{get}
use alpha_shadow.Prelude.Sort.{sort}
use alpha_shadow.Tax.Rules.{TaxRoundingStrategy, ResolvedTaxLine}
use alpha_shadow.Tax.Cascading.{
  ApplicableTax, TaxComputationPlan, or_none, order_plans, priorities_of, collect_plans, Progress,
  run_groups, advance, run_priorities, sequence_before, sort_rows, no_rows, no_total,
  calculate_cascading_taxes,
}
use alpha_shadow.Tax.Cascading.Rows.{keys, keys-calculate_cascading_taxes}
use alpha_shadow.Tax.Cascading.Stages.{
  exclusive_amount, pos_sum, total_at, InStage, total_at-advance,
}
use alpha_shadow.Tax.Cascading.Bases.{IsOneOf, IsRowOf, count_at, IsCascade, no_more, stage}
use alpha_shadow.Tax.Cascading.Runs.{Grown, run_groups-InStage}
use alpha_shadow.Tax.Cascading.Collected.{Once, collect_plans-Collects}
use alpha_shadow.Tax.Cascading.Ordered.{IsOrdered, order_plans-Once}
use alpha_shadow.Tax.Cascading.Priorities.{
  Ascending, Covered, priorities_of-Ascending, priorities_of-Covered,
}

module _ (strategy : TaxRoundingStrategy) (plans : List TaxComputationPlan)
    (taxes : List (Text × List ApplicableTax)) (plan : TaxComputationPlan) (once : Once plan plans)
    {ts : List ApplicableTax} (ordered : get plan.order_line_id taxes ≡ some ts) where
  run_priorities-IsCascade :
      (ps : List ℕ) (totals : List (Text × ℤ)) (rows : List (Text × List ResolvedTaxLine))
      {before : List ResolvedTaxLine} {after : List (Text × List ResolvedTaxLine)}
      → get plan.order_line_id rows ≡ some before
      → total_at plan.order_line_id totals ≡ pos (sum_of exclusive_amount before)
      → run_priorities strategy plans taxes ps totals rows ≡ ok after
      → (raw : List ResolvedTaxLine) × (get plan.order_line_id after ≡ some raw)
        × IsCascade strategy plan.order_line_id ts plan.amount_minor ps before raw
  unfolding run_priorities Grown get
  run_priorities-IsCascade [] totals rows {before} g t h =
      (before, ap (get plan.order_line_id) (sym (ok-injective h)) ∙ g, no_more)
  run_priorities-IsCascade (p ∷ ps) totals rows {before} g t h =
      let id : Text = plan.order_line_id in
      let or_ts : or_none (get id taxes) ≡ ts = ap or_none ordered in
      let (groups, collected, h1) = >>=-eq-ok (collect_plans p taxes totals plans []) _ h in
      let start : Progress = record { rows = rows; gathered = [] } in
      let (state, run, h2) = >>=-eq-ok (run_groups strategy groups start) _ h1 in
      let (on, count) = collect_plans-Collects p taxes totals plan plans [] once tt collected in
      let base : ℤ = plan.amount_minor +ℤ total_at id totals in
      let begun : InStage id (IsRowOf strategy id (or_none (get id taxes)) p base) before start [] =
        record {
          rows = g ∙ ap some (sym (append_nil before));
          gathered = refl;
          distinct = tt;
          good = tt;
        } in
      let (new, grown, many) =
        run_groups-InStage strategy id (or_none (get id taxes)) p base before groups start on begun
          run in
      let next =
        total_at-advance id state.gathered totals grown.distinct
        ∙ ap (λ n. n +ℤ total_at id state.gathered) t
        ∙ ap (λ n. pos (sum_of exclusive_amount before) +ℤ n) grown.gathered
        ∙ pos_sum (sum_of exclusive_amount before) (sum_of exclusive_amount new)
        ∙ ap pos (sym (sum_of-append exclusive_amount before new)) in
      let (raw, found, cascade) =
        run_priorities-IsCascade ps (advance state.gathered totals) state.rows grown.rows next h2 in
      (
        raw,
        found,
        stage new
            (subst (λ b. All (IsRowOf strategy id ts p (plan.amount_minor +ℤ b)) new) t
              (subst (λ us. All (IsRowOf strategy id us p base) new) or_ts grown.good))
            (λ k. omega (arith, many k, count k) ∙ ap (count_at p k 0) or_ts) cascade,
      )
    where
      append_nil : (xs : List ResolvedTaxLine) → xs ++ [] ≡ xs
      append_nil [] = refl
      append_nil (x ∷ xs) = ap (λ l. x ∷ l) (append_nil xs)

get-no_rows :
    (id : Text) (taxes : List (Text × List ApplicableTax)) {ts : List ApplicableTax}
    → get id taxes ≡ some ts
    → get id (map no_rows taxes) ≡ some []
unfolding get
get-no_rows id [] h = cc
get-no_rows id ((k, us) ∷ rest) h = elim (Bool-cases (text_beq k id)) [
  | inl same ↦ rw same refl
  | inr other ↦
      rw other (get-no_rows id rest (ap (λ b. if b then some us else get id rest) (sym other) ∙ h))
]

total_at-no_total :
    (id : Text) (taxes : List (Text × List ApplicableTax))
    → total_at id (map no_total taxes) ≡ pos 0
unfolding get
total_at-no_total id [] = refl
total_at-no_total id ((k, us) ∷ rest) = elim (Bool-cases (text_beq k id)) [
  | inl same ↦ rw same refl
  | inr other ↦ rw other (total_at-no_total id rest)
]

get-sort_rows :
    (id : Text) (rows : List (Text × List ResolvedTaxLine)) {raw : List ResolvedTaxLine}
    → get id rows ≡ some raw
    → get id (map sort_rows rows) ≡ some (sort sequence_before raw)
unfolding get
get-sort_rows id [] h = cc
get-sort_rows id ((k, rs) ∷ rest) h = elim (Bool-cases (text_beq k id)) [
  | inl same ↦ rw same (ap sorted (ap (λ b. if b then some rs else get id rest) (sym same) ∙ h))
  | inr other ↦
      rw other
        (get-sort_rows id rest (ap (λ b. if b then some rs else get id rest) (sym other) ∙ h))
]
  where
    sorted : Option (List ResolvedTaxLine) → Option (List ResolvedTaxLine)
    sorted none = none
    sorted (some rs) = some (sort sequence_before rs)

-- A line of the result: the rows of its cascade over the priorities, by their sequence.
pub record IsLine (strategy : TaxRoundingStrategy) (ps : List ℕ)
    (result : List (Text × List ResolvedTaxLine)) (plan : TaxComputationPlan) : Type 0 where
  pub taxes : List ApplicableTax
  pub ordered : IsOrdered plan taxes
  pub covered : Covered ps taxes
  pub raw : List ResolvedTaxLine
  pub cascade : IsCascade strategy plan.order_line_id taxes plan.amount_minor ps [] raw
  pub rows : get plan.order_line_id result ≡ some (sort sequence_before raw)

All-of :
    (P : TaxComputationPlan → Type 0) (xs : List TaxComputationPlan)
    → ((x : TaxComputationPlan) → IsOneOf x xs → P x)
    → All P xs
All-of P [] f = tt
All-of P (x ∷ xs) f = (f x (inl refl), All-of P xs (λ y i. f y (inr i)))

-- A cascade that is computed has every order line of the plans, in their order. There are ascending
-- priorities, with those of all the taxes, such that each line gets, one priority after the other,
-- one row for each of its taxes of the priority: a row of a tax of the plan, with its rate and its
-- place among the sorted taxes, on the amount of the line and the taxes of all its rows of lower
-- priorities that the price does not include. Under the strategy `per_line` the tax of a row is
-- that of this base; under `invoice_total` it is the line's share in an allocation of the tax at the
-- row's rate, to lines among which is this one with this base. The rows of a line stand by their places.
pub calculate_cascading_taxes-IsLine :
    (plans : List TaxComputationPlan) (strategy : TaxRoundingStrategy)
    {result : List (Text × List ResolvedTaxLine)}
    → calculate_cascading_taxes plans strategy ≡ ok result
    → (keys result ≡ map (λ p. p.order_line_id) plans)
      × (ps : List ℕ) × Ascending ps
      × All (IsLine strategy ps result) plans
unfolding calculate_cascading_taxes
calculate_cascading_taxes-IsLine plans strategy {result} h =
    let (taxes, is_ordered, h1) = >>=-eq-ok (order_plans [] plans) _ h in
    let ps : List ℕ = priorities_of taxes in
    let (rows, run, h2) =
      >>=-eq-ok (run_priorities strategy plans taxes ps (map no_total taxes) (map no_rows taxes)) _
        h1 in
    (
      keys-calculate_cascading_taxes plans strategy h,
      ps,
      priorities_of-Ascending taxes,
      All-of (IsLine strategy ps result) plans (λ plan one.
          let (once, ts, found, ordered) = order_plans-Once [] plans plan is_ordered one in
          let (raw, at, cascade) =
            run_priorities-IsCascade strategy plans taxes plan once found ps (map no_total taxes)
              (map no_rows taxes) (get-no_rows plan.order_line_id taxes found)
              (total_at-no_total plan.order_line_id taxes) run in
          record {
            taxes = ts;
            ordered = ordered;
            covered = priorities_of-Covered plan.order_line_id taxes found;
            raw = raw;
            cascade = cascade;
            rows =
                ap (get plan.order_line_id) (sym (ok-injective h2))
                ∙ get-sort_rows plan.order_line_id rows at;
          }),
    )
