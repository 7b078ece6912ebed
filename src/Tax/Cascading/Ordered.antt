-- ===== src/Tax/Cascading/Ordered.antt =====
-- The ordered taxes of the lines.
use mathlib.Core.Path.{subst}
use alpha_shadow.Prelude.{
  ◌≡◌, ◌≢◌, refl, sym, ap, ◌∙◌, Bool, true, false, not, arith, if◌then◌else◌, inl, inr, Bool-cases,
  Option, none, some, All, List, [], ◌∷◌, map, Text, text_eq, text_beq, text_beq_iff, ok, err,
  err-not-ok, guard, guard-not, >>=-eq-ok, ok-injective, tax_configuration,
}
use alpha_shadow.Prelude.Assoc.{get, has, put, get-put, has-get}
use alpha_shadow.Tax.Math.{assert_tax_amount}
use alpha_shadow.Tax.Rules.{TaxCategory, sort_tax_categories}
use alpha_shadow.Tax.Cascading.{
  ApplicableTax, TaxComputationPlan, find_tax, matching, order_taxes, category_count, order_plans,
}
use alpha_shadow.Tax.Cascading.Bases.{IsOneOf}
use alpha_shadow.Tax.Cascading.Collected.{Once}

All-IsOneOf : {A : Type 0} (P : A → Type 0) (xs : List A) {x : A} → All P xs → IsOneOf x xs → P x
All-IsOneOf P [] h i = absurd i
All-IsOneOf P (y ∷ xs) (p, h) (inl same) = subst P same p
All-IsOneOf P (y ∷ xs) (p, h) (inr later) = All-IsOneOf P xs h later

-- The taxes of a line in the order of their sorted categories: each is one of the plan's taxes, and
-- its rate is of its category.
abbrev pub IsOrdered : TaxComputationPlan → List ApplicableTax → Type 0
IsOrdered plan taxes =
    (sorted : List TaxCategory) × (sort_tax_categories (map (λ t. t.category) plan.taxes)
      ≡ ok sorted)
    × (map (λ t. t.category.id) taxes ≡ map (λ c. c.id) sorted)
    × All (λ t. IsOneOf t plan.taxes × (t.rate.tax_category_id ≡ t.category.id)) taxes

find_tax-IsOneOf :
    (id : Text) (taxes : List ApplicableTax) {t : ApplicableTax}
    → find_tax id taxes ≡ some t
    → IsOneOf t taxes × (t.category.id ≡ id)
unfolding find_tax
find_tax-IsOneOf id [] h = cc
find_tax-IsOneOf id (u ∷ rest) h =
    let chosen : Bool → Option ApplicableTax = λ b. if b then some u else find_tax id rest in
    elim (Bool-cases (text_beq u.category.id id)) [
      | inl same ↦
          let e = some-tax (ap chosen (sym same) ∙ h) in
          (inl e, ap (λ x. x.category.id) (sym e) ∙ (text_beq_iff u.category.id id).0 same)
      | inr other ↦
          let (later, is) = find_tax-IsOneOf id rest (ap chosen (sym other) ∙ h) in (inr later, is)
    ]
  where
    some-tax : {a b : ApplicableTax} → some a ≡ some b → a ≡ b
    some-tax e = cc

matching-eq-ok :
    (category : TaxCategory) (found : Option ApplicableTax) {t : ApplicableTax}
    → matching category found ≡ ok t
    → (found ≡ some t) × (t.rate.tax_category_id ≡ category.id)
matching-eq-ok category none h = absurd (err-not-ok h)
matching-eq-ok category (some u) h =
    elim (Bool-cases (text_beq u.rate.tax_category_id category.id)) [
      | inl same ↦
          let e =
            ok-injective (ap (λ b. if b then ok u else err tax_configuration) (sym same) ∙ h) in
          (ap some e, ap (λ x. x.rate.tax_category_id) (sym e) ∙ (text_beq_iff _ _).0 same)
      | inr other ↦
          absurd (err-not-ok (ap (λ b. if b then ok u else err tax_configuration) (sym other) ∙ h))
    ]

order_taxes-eq-ok :
    (given : List ApplicableTax) (sorted : List TaxCategory) {taxes : List ApplicableTax}
    → order_taxes given sorted ≡ ok taxes
    → (map (λ t. t.category.id) taxes ≡ map (λ c. c.id) sorted)
      × All (λ t. IsOneOf t given × (t.rate.tax_category_id ≡ t.category.id)) taxes
unfolding order_taxes
order_taxes-eq-ok given [] h = rw (← ok-injective h) (refl, tt)
order_taxes-eq-ok given (c ∷ sorted) h =
    let (t, matched, h1) = >>=-eq-ok (matching c (find_tax c.id given)) _ h in
    let (rest, ordered, h2) = >>=-eq-ok (order_taxes given sorted) _ h1 in
    let (found, of_category) = matching-eq-ok c (find_tax c.id given) matched in
    let (one, is) = find_tax-IsOneOf c.id given found in
    let (ids, all_of) = order_taxes-eq-ok given sorted ordered in
    rw (← ok-injective h2) (
      ap (λ i. i ∷ map (λ x. x.category.id) rest) is ∙ ap (λ l. c.id ∷ l) ids,
      ((one, of_category ∙ sym is), all_of),
    )

-- What a step of `order_plans` has checked and set.
order_plans-step :
    (seen : List (Text × List ApplicableTax)) (plan : TaxComputationPlan)
    (rest : List TaxComputationPlan) {taxes : List (Text × List ApplicableTax)}
    → order_plans seen (plan ∷ rest) ≡ ok taxes
    → (has plan.order_line_id seen ≡ false)
      × (ordered : List ApplicableTax) × IsOrdered plan ordered
      × (order_plans (put plan.order_line_id ordered seen) rest ≡ ok taxes)
unfolding order_plans
order_plans-step seen plan rest h =
    let (_, _, h1) = >>=-eq-ok (assert_tax_amount plan.amount_minor) _ h in
    let (_, fresh, h2) =
      >>=-eq-ok (guard (not (has plan.order_line_id seen)) tax_configuration) _ h1 in
    let (_, _, h3) = >>=-eq-ok (guard (category_count plan.taxes) tax_configuration) _ h2 in
    let (sorted, is_sorted, h4) =
      >>=-eq-ok (sort_tax_categories (map (λ t. t.category) plan.taxes)) _ h3 in
    let (ordered, is_ordered, h5) = >>=-eq-ok (order_taxes plan.taxes sorted) _ h4 in
    let (ids, all_of) = order_taxes-eq-ok plan.taxes sorted is_ordered in
    (
      guard-not (has plan.order_line_id seen) tax_configuration fresh,
      ordered,
      (sorted, is_sorted, ids, all_of),
      h5,
    )

-- A line that was seen keeps its taxes, and no later plan has its id.
order_plans-kept :
    (k : Text) (seen : List (Text × List ApplicableTax)) (plans : List TaxComputationPlan)
    {taxes : List (Text × List ApplicableTax)} {kept : List ApplicableTax}
    → get k seen ≡ some kept
    → order_plans seen plans ≡ ok taxes
    → (get k taxes ≡ some kept) × All (λ r. r.order_line_id ≢ k) plans
unfolding order_plans
order_plans-kept k seen [] g h = (ap (get k) (sym (ok-injective h)) ∙ g, tt)
order_plans-kept k seen (plan ∷ rest) {kept = kept} g h =
    let (fresh, ordered, is, h1) = order_plans-step seen plan rest h in
    let apart : plan.order_line_id ≢ k =
      λ e. false-not-true (sym fresh ∙ ap (λ x. has x seen) e ∙ has-get k seen kept g) in
    let differs : text_beq plan.order_line_id k ≡ false =
      grind (arith, apart, (text_beq_iff plan.order_line_id k).0) in
    let still =
      get-put plan.order_line_id k ordered seen
      ∙ ap (λ b. if b then some ordered else get k seen) differs
      ∙ g in
    let (later, others) = order_plans-kept k (put plan.order_line_id ordered seen) rest still h1 in
    (later, (apart, others))
  where
    false-not-true : false ≡ true → ⊥
    false-not-true e = cc

-- Every plan is the only one of its line, and its taxes are ordered.
pub order_plans-Once :
    (seen : List (Text × List ApplicableTax)) (plans : List TaxComputationPlan)
    {taxes : List (Text × List ApplicableTax)} (plan : TaxComputationPlan)
    → order_plans seen plans ≡ ok taxes
    → IsOneOf plan plans
    → Once plan plans
      × (ordered : List ApplicableTax) × (get plan.order_line_id taxes ≡ some ordered)
      × IsOrdered plan ordered
order_plans-Once seen [] plan h i = absurd i
order_plans-Once seen (q ∷ rest) {taxes} plan h (inl same) =
    let (fresh, ordered, is, h1) = order_plans-step seen q rest h in
    let set =
      get-put q.order_line_id q.order_line_id ordered seen
      ∙ ap (λ b. if b then some ordered else get q.order_line_id seen)
          ((text_beq_iff q.order_line_id q.order_line_id).1 refl) in
    let (kept, others) =
      order_plans-kept q.order_line_id (put q.order_line_id ordered seen) rest set h1 in
    (
      inl (same, subst (λ x. All (λ r. r.order_line_id ≢ x.order_line_id) rest) same others),
      ordered,
      ap (λ x. get x.order_line_id taxes) (sym same) ∙ kept,
      subst (λ x. IsOrdered x ordered) same is,
    )
order_plans-Once seen (q ∷ rest) {taxes} plan h (inr later) =
    let (fresh, ordered, is, h1) = order_plans-step seen q rest h in
    let set =
      get-put q.order_line_id q.order_line_id ordered seen
      ∙ ap (λ b. if b then some ordered else get q.order_line_id seen)
          ((text_beq_iff q.order_line_id q.order_line_id).1 refl) in
    let (_, others) =
      order_plans-kept q.order_line_id (put q.order_line_id ordered seen) rest set h1 in
    let apart = All-IsOneOf (λ r. r.order_line_id ≢ q.order_line_id) rest others later in
    let (once, taxed, found, is_ordered) =
      order_plans-Once (put q.order_line_id ordered seen) rest plan h1 later in
    (inr ((λ e. apart (sym e)), once), taxed, found, is_ordered)
