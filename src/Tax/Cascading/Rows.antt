-- ===== src/Tax/Cascading/Rows.antt =====
-- The lines of a computed cascade.
use alpha_shadow.Prelude.{
  ℕ, ◌≡◌, refl, sym, ap, ◌∙◌, false, not, arith, inl, inr, Bool-cases, ℤ, Option, List, [], ◌∷◌,
  ◌++◌, map, Text, text_eq, text_beq, ok, guard, tax_configuration, >>=-eq-ok, ok-injective,
  guard-not,
}
use alpha_shadow.Prelude.Assoc.{has, put}
use alpha_shadow.Tax.Math.{assert_tax_amount}
use alpha_shadow.Tax.Rules.{TaxRoundingStrategy, TaxRate, ResolvedTaxLine, sort_tax_categories}
use alpha_shadow.Tax.Cascading.{
  ApplicableTax, TaxComputationPlan, Work, GroupId, category_count, order_taxes, order_plans,
  priorities_of, collect_plans, Progress, resolved_line, push_row, record_tax, work_tax, run_works,
  group_allocations, run_group, run_groups, advance, run_priorities, sort_rows, no_rows, no_total,
  calculate_cascading_taxes,
}

abbrev pub keys {ℓ} : {V : Type ℓ} → List (Text × V) → List Text
keys = map (λ e. e.0)

keys-push_row :
    (id : Text) (row : ResolvedTaxLine) (m : List (Text × List ResolvedTaxLine))
    → keys (push_row id row m) ≡ keys m
unfolding push_row
keys-push_row id row [] = refl
keys-push_row id row ((j, rows) ∷ m) = elim (Bool-cases (text_beq j id)) [
  | inl same ↦ rw same refl
  | inr other ↦ rw other (ap (λ k. j ∷ k) (keys-push_row id row m))
]

keys-run_works :
    (rate : TaxRate) (allocations : Option (List (Text × ℕ))) (works : List Work) (state : Progress)
    {after : Progress}
    → run_works rate allocations works state ≡ ok after
    → keys after.rows ≡ keys state.rows
unfolding run_works record_tax
keys-run_works rate allocations [] state h = ap (λ s. keys s.rows) (sym (ok-injective h))
keys-run_works rate allocations (work ∷ rest) state h =
    let (tax, _, h1) = >>=-eq-ok (work_tax rate allocations work) _ h in
    keys-run_works rate allocations rest (record_tax rate work tax state) h1
    ∙ keys-push_row work.line_id (resolved_line rate work tax) state.rows

keys-run_group :
    (strategy : TaxRoundingStrategy) (works : List Work) (state : Progress) {after : Progress}
    → run_group strategy works state ≡ ok after
    → keys after.rows ≡ keys state.rows
unfolding run_group
keys-run_group strategy [] state h = ap (λ s. keys s.rows) (sym (ok-injective h))
keys-run_group strategy (w ∷ ws) state h =
    let (allocations, _, h1) = >>=-eq-ok (group_allocations strategy w.tax.rate (w ∷ ws)) _ h in
    keys-run_works w.tax.rate allocations (w ∷ ws) state h1

keys-run_groups :
    (strategy : TaxRoundingStrategy) (groups : List (GroupId × List Work)) (state : Progress)
    {after : Progress}
    → run_groups strategy groups state ≡ ok after
    → keys after.rows ≡ keys state.rows
unfolding run_groups
keys-run_groups strategy [] state h = ap (λ s. keys s.rows) (sym (ok-injective h))
keys-run_groups strategy ((id, works) ∷ rest) state h =
    let (middle, run, h1) = >>=-eq-ok (run_group strategy works state) _ h in
    keys-run_groups strategy rest middle h1 ∙ keys-run_group strategy works state run

keys-run_priorities :
    (strategy : TaxRoundingStrategy) (plans : List TaxComputationPlan)
    (taxes : List (Text × List ApplicableTax)) (ps : List ℕ) (totals : List (Text × ℤ))
    (rows : List (Text × List ResolvedTaxLine)) {after : List (Text × List ResolvedTaxLine)}
    → run_priorities strategy plans taxes ps totals rows ≡ ok after
    → keys after ≡ keys rows
unfolding run_priorities
keys-run_priorities strategy plans taxes [] totals rows h = ap keys (sym (ok-injective h))
keys-run_priorities strategy plans taxes (p ∷ ps) totals rows h =
    let (groups, _, h1) = >>=-eq-ok (collect_plans p taxes totals plans []) _ h in
    let (state, run, h2) =
      >>=-eq-ok (run_groups strategy groups (record { rows = rows; gathered = [] })) _ h1 in
    keys-run_priorities strategy plans taxes ps (advance state.gathered totals) state.rows h2
    ∙ keys-run_groups strategy groups (record { rows = rows; gathered = [] }) run

keys-put-new {ℓ} :
    {V : Type ℓ} (k : Text) (v : V) (m : List (Text × V))
    → has k m ≡ false
    → keys (put k v m) ≡ keys m ++ (k ∷ [])
unfolding has put
keys-put-new k v [] h = refl
keys-put-new k v ((j, w) ∷ m) h = elim (Bool-cases (text_beq j k)) [
  | inl same ↦ absurd (ground (arith, same, h))
  | inr other ↦ rw other (ap (λ l. j ∷ l) (keys-put-new k v m (ground (arith, other, h))))
]

append_step : (xs ys : List Text) (k : Text) → (xs ++ (k ∷ [])) ++ ys ≡ xs ++ (k ∷ ys)
append_step [] ys k = refl
append_step (x ∷ xs) ys k = ap (λ l. x ∷ l) (append_step xs ys k)

append_nil : (xs : List Text) → xs ++ [] ≡ xs
append_nil [] = refl
append_nil (x ∷ xs) = ap (λ l. x ∷ l) (append_nil xs)

order_plans-keys :
    (seen : List (Text × List ApplicableTax)) (plans : List TaxComputationPlan)
    {taxes : List (Text × List ApplicableTax)}
    → order_plans seen plans ≡ ok taxes
    → keys taxes ≡ keys seen ++ map (λ p. p.order_line_id) plans
unfolding order_plans
order_plans-keys seen [] h = ap keys (sym (ok-injective h)) ∙ sym (append_nil (keys seen))
order_plans-keys seen (plan ∷ rest) h =
    let (_, _, h1) = >>=-eq-ok (assert_tax_amount plan.amount_minor) _ h in
    let (_, fresh, h2) =
      >>=-eq-ok (guard (not (has plan.order_line_id seen)) tax_configuration) _ h1 in
    let (_, _, h3) = >>=-eq-ok (guard (category_count plan.taxes) tax_configuration) _ h2 in
    let (sorted, _, h4) = >>=-eq-ok (sort_tax_categories (map (λ t. t.category) plan.taxes)) _ h3 in
    let (ordered, _, h5) = >>=-eq-ok (order_taxes plan.taxes sorted) _ h4 in
    order_plans-keys (put plan.order_line_id ordered seen) rest h5
    ∙ ap (λ l. l ++ map (λ p. p.order_line_id) rest)
        (keys-put-new plan.order_line_id ordered seen
          (guard-not (has plan.order_line_id seen) tax_configuration fresh))
    ∙ append_step (keys seen) (map (λ p. p.order_line_id) rest) plan.order_line_id

keys-no_rows : (taxes : List (Text × List ApplicableTax)) → keys (map no_rows taxes) ≡ keys taxes
keys-no_rows [] = refl
keys-no_rows ((id, ts) ∷ rest) = ap (λ l. id ∷ l) (keys-no_rows rest)

keys-sort_rows : (rows : List (Text × List ResolvedTaxLine)) → keys (map sort_rows rows) ≡ keys rows
keys-sort_rows [] = refl
keys-sort_rows ((id, rs) ∷ rest) = ap (λ l. id ∷ l) (keys-sort_rows rest)

-- A cascade that is computed has every order line of the plans, in their order.
pub keys-calculate_cascading_taxes :
    (plans : List TaxComputationPlan) (strategy : TaxRoundingStrategy)
    {result : List (Text × List ResolvedTaxLine)}
    → calculate_cascading_taxes plans strategy ≡ ok result
    → keys result ≡ map (λ p. p.order_line_id) plans
unfolding calculate_cascading_taxes
keys-calculate_cascading_taxes plans strategy h =
    let (taxes, ordered, h1) = >>=-eq-ok (order_plans [] plans) _ h in
    let (rows, run, h2) =
      >>=-eq-ok
        (run_priorities strategy plans taxes (priorities_of taxes) (map no_total taxes)
          (map no_rows taxes))
        _ h1 in
    ap keys (sym (ok-injective h2))
    ∙ keys-sort_rows rows
    ∙ keys-run_priorities strategy plans taxes (priorities_of taxes) (map no_total taxes)
        (map no_rows taxes) run
    ∙ keys-no_rows taxes
    ∙ order_plans-keys [] plans ordered
