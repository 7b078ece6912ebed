-- ===== src/Tax/Cascading/Runs.antt =====
-- The rows that the works of a priority become.
use mathlib.Core.Path.{subst}
use mathlib.Core.List.{append_assoc}
use alpha_shadow.Prelude.{
  ℕ, ◌==◌, ◌+◌, ◌≡◌, refl, sym, ap, ◌∙◌, arith, if◌then◌else◌, inl, inr, Bool-cases, ℤ, pos, ◌-ℤ◌,
  Option, none, some, All, List, [], ◌∷◌, ◌++◌, Text, text_eq, text_beq, text_beq_iff, ok,
  >>=-eq-ok, ok-injective, err-not-ok,
}
use alpha_shadow.Prelude.Assoc.{get}
use alpha_shadow.Tax.Math.Invoice.{InvoiceTaxShare, allocate_invoice_tax}
use alpha_shadow.Tax.Math.{calculate_tax_amount}
use alpha_shadow.Tax.Rules.{TaxRoundingStrategy, per_line, invoice_total, TaxRate, ResolvedTaxLine}
use alpha_shadow.Tax.Cascading.{
  ApplicableTax, Work, GroupId, Progress, resolved_line, record_tax, work_tax, run_works,
  group_allocations, shares_of, allocated, run_group, run_groups,
}
use alpha_shadow.Tax.Cascading.Stages.{InStage, record_tax-on, record_tax-off}
use alpha_shadow.Tax.Cascading.Bases.{IsOneOf, IsComputed, IsRowOf, count_rows}
use alpha_shadow.Tax.Cascading.Groups.{count_works, count_groups, InGroup, AreGroups, OnLine}

none-not-some : {A : Type 0} {a : A} → none ≡ some a → ⊥
none-not-some h = cc

append_nil {ℓ} : {A : Type ℓ} (xs : List A) → xs ++ [] ≡ xs
append_nil [] = refl
append_nil (x ∷ xs) = ap (λ l. x ∷ l) (append_nil xs)

count_rows-resolved_line :
    (k : ℕ) (rate : TaxRate) (work : Work) (tax : ℕ) (more : List ResolvedTaxLine) {n : ℕ}
    → count_rows k more ≡ n
    → count_rows k (resolved_line rate work tax ∷ more) ≡ (if work.sequence == k then 1 + n else n)
unfolding resolved_line
count_rows-resolved_line k rate work tax more h =
    ap (λ m. if work.sequence == k then 1 + m else m) h

count_rows-append :
    (k : ℕ) (xs ys : List ResolvedTaxLine)
    → count_rows k (xs ++ ys) ≡ count_rows k xs + count_rows k ys
count_rows-append k [] ys = omega arith
count_rows-append k (x ∷ xs) ys = ground (arith, count_rows-append k xs ys)

module _ (id : Text) (Good : ResolvedTaxLine → Type 0) (before : List ResolvedTaxLine) where
  -- The works of the line become its rows, one each.
  unfoldable pub Grown : Progress → List ResolvedTaxLine → (ℕ → ℕ) → Type 0
  Grown after new n =
      (more : List ResolvedTaxLine) × InStage id Good before after (new ++ more)
      × ((place : ℕ) → count_rows place more ≡ n place)

  module _ (rate : TaxRate) (allocations : Option (List (Text × ℕ))) (Fits : Work → Type 0)
      (good : (w : Work) (tax : ℕ)
        → Fits w
        → work_tax rate allocations w ≡ ok tax
        → w.line_id ≡ id
        → Good (resolved_line rate w tax)) where
    run_works-InStage :
        (works : List Work) (state : Progress) {new : List ResolvedTaxLine} {after : Progress}
        → All Fits works
        → InStage id Good before state new
        → run_works rate allocations works state ≡ ok after
        → Grown after new (λ k. count_works k id works)
    unfolding run_works Grown
    run_works-InStage [] state {new} fits h k =
        ([], rw (← ok-injective k, append_nil new) h, λ k. refl)
    run_works-InStage (w ∷ works) state {new} (fit, fits) h k =
        let (tax, worked, k1) = >>=-eq-ok (work_tax rate allocations w) _ k in
        let row = resolved_line rate w tax in
        elim (Bool-cases (text_beq w.line_id id)) [
          | inl same ↦
              let mine = (text_beq_iff w.line_id id).0 same in
              let now =
                record_tax-on id Good before rate w tax state h mine (good w tax fit worked mine) in
              let (more, later, count) =
                run_works-InStage works (record_tax rate w tax state) fits now k1 in
              (
                row ∷ more,
                subst (InStage id Good before _) (append_assoc new (row ∷ []) more) later,
                λ k. rw same (count_rows-resolved_line k rate w tax more (count k)),
              )
          | inr other ↦
              let now = record_tax-off id Good before rate w tax state h other in
              let (more, later, count) =
                run_works-InStage works (record_tax rate w tax state) fits now k1 in
              (more, later, λ k. ground (arith, other, count k))
        ]

each_later :
    (P : Work → Type 0) (v : Work) (all_works works : List Work)
    → All (λ w. IsOneOf w all_works × P w) works
    → All (λ w. IsOneOf w (v ∷ all_works) × P w) works
each_later P v all_works [] h = tt
each_later P v all_works (w ∷ works) ((i, p), h) = ((inr i, p), each_later P v all_works works h)

each_IsOneOf :
    (P : Work → Type 0) (works : List Work) → All P works → All (λ w. IsOneOf w works × P w) works
each_IsOneOf P [] h = tt
each_IsOneOf P (w ∷ works) (p, h) =
    ((inl refl, p), each_later P w works works (each_IsOneOf P works h))

share_of : Work → InvoiceTaxShare
share_of w = record { id = w.line_id; amount_minor = w.base }

shares_of-IsOneOf :
    (works : List Work) (w : Work) → IsOneOf w works → IsOneOf (share_of w) (shares_of works)
unfolding share_of
shares_of-IsOneOf [] w i = absurd i
shares_of-IsOneOf (v ∷ works) w (inl same) = inl (ap share_of same)
shares_of-IsOneOf (v ∷ works) w (inr later) = inr (shares_of-IsOneOf works w later)

allocated-eq-ok : (o : Option ℕ) {n : ℕ} → allocated o ≡ ok n → o ≡ some n
allocated-eq-ok none h = absurd (err-not-ok h)
allocated-eq-ok (some n) h = ap some (ok-injective h)

some-injective : {A : Type 0} {a b : A} → some a ≡ some b → a ≡ b
some-injective h = cc

-- The tax of a work: its own under `per_line`, and the share of its line under the other strategy.
work_tax-IsComputed :
    (strategy : TaxRoundingStrategy) (rate : TaxRate) (works : List Work)
    (allocations : Option (List (Text × ℕ))) (w : Work) (tax : ℕ)
    → IsOneOf w works
    → group_allocations strategy rate works ≡ ok allocations
    → work_tax rate allocations w ≡ ok tax
    → IsComputed strategy w.line_id w.base (resolved_line rate w tax)
unfolding work_tax resolved_line share_of
work_tax-IsComputed invoice_total rate works none w tax one shared h =
    let (shares, _, h1) =
      >>=-eq-ok
        (allocate_invoice_tax (shares_of works) rate.rate_bps rate.is_price_inclusive_default) _
        shared in
    absurd (none-not-some (sym (ok-injective h1)))
work_tax-IsComputed invoice_total rate works (some allocations) w tax one shared h =
    let (shares, is_allocation, h1) =
      >>=-eq-ok
        (allocate_invoice_tax (shares_of works) rate.rate_bps rate.is_price_inclusive_default) _
        shared in
    (
      shares_of works,
      allocations,
      shares_of-IsOneOf works w one,
      is_allocation ∙ ap ok (some-injective (ok-injective h1)),
      allocated-eq-ok (get w.line_id allocations) h,
    )
work_tax-IsComputed per_line rate works (some shares) w tax one shared h =
    absurd (none-not-some (ok-injective shared))
work_tax-IsComputed per_line rate works none w tax one shared h =
    let (computed, run, done) =
      >>=-eq-ok (calculate_tax_amount w.base rate.rate_bps rate.is_price_inclusive_default) _ h in
    (computed, run, sym (ok-injective done))

module _ (strategy : TaxRoundingStrategy) (id : Text) (taxes : List ApplicableTax) (p : ℕ)
    (base : ℤ) (before : List ResolvedTaxLine) where
  abbrev pub GoodRow : ResolvedTaxLine → Type 0
  GoodRow = IsRowOf strategy id taxes p base

  resolved_line-IsRowOf :
      (group : GroupId) (first w : Work) (tax : ℕ)
      → InGroup group first
      → InGroup group w
      → OnLine id taxes p base w
      → w.line_id ≡ id
      → IsComputed strategy w.line_id w.base (resolved_line first.tax.rate w tax)
      → GoodRow (resolved_line first.tax.rate w tax)
  unfolding resolved_line
  resolved_line-IsRowOf group first w tax (i, j, k) (i', j', k') on mine computed =
      let (at_base, place, of_priority) = on mine in
      record {
        tax = w.tax;
        place = place;
        of_priority = of_priority;
        rate_id = sym i ∙ i';
        rate_bps = sym j ∙ j';
        inclusive = sym k ∙ k';
        taxable =
            ap (λ b. if first.tax.rate.is_price_inclusive_default then b -ℤ pos tax else b) at_base;
        computed =
            subst (λ k. IsComputed strategy k base (resolved_line first.tax.rate w tax)) mine
              (subst (λ b. IsComputed strategy w.line_id b (resolved_line first.tax.rate w tax))
                at_base computed);
      }

  run_group-InStage :
      (group : GroupId) (works : List Work) (state : Progress) {new : List ResolvedTaxLine}
      {after : Progress}
      → All (λ w. InGroup group w × OnLine id taxes p base w) works
      → InStage id GoodRow before state new
      → run_group strategy works state ≡ ok after
      → Grown id GoodRow before after new (λ k. count_works k id works)
  unfolding run_group Grown
  run_group-InStage group [] state {new} fits h k =
      ([], rw (← ok-injective k, append_nil new) h, λ k. refl)
  run_group-InStage group (first ∷ works) state fits h k =
      let (allocations, shared, k1) =
        >>=-eq-ok (group_allocations strategy first.tax.rate (first ∷ works)) _ k in
      run_works-InStage id GoodRow before first.tax.rate allocations
        (λ w. IsOneOf w (first ∷ works) × (InGroup group w × OnLine id taxes p base w))
        (λ w tax (one, (i, on)) worked mine.
          resolved_line-IsRowOf group first w tax fits.0.0 i on mine (
            work_tax-IsComputed strategy first.tax.rate (first ∷ works) allocations w tax one shared
              worked))
        (first ∷ works) state
        (each_IsOneOf (λ w. InGroup group w × OnLine id taxes p base w) (first ∷ works) fits) h k1

  pub run_groups-InStage :
      (groups : List (GroupId × List Work)) (state : Progress) {new : List ResolvedTaxLine}
      {after : Progress}
      → AreGroups (OnLine id taxes p base) groups
      → InStage id GoodRow before state new
      → run_groups strategy groups state ≡ ok after
      → Grown id GoodRow before after new (λ k. count_groups k id groups)
  unfolding run_groups Grown
  run_groups-InStage [] state {new} fits h k =
      ([], rw (← ok-injective k, append_nil new) h, λ k. refl)
  run_groups-InStage ((group, works) ∷ groups) state {new} (fit, fits) h k =
      let (middle, run, k1) = >>=-eq-ok (run_group strategy works state) _ k in
      let (some_rows, now, count) = run_group-InStage group works state fit h run in
      let (more, later, rest_count) = run_groups-InStage groups middle fits now k1 in
      (
        some_rows ++ more,
        subst (InStage id GoodRow before _) (append_assoc new some_rows more) later,
        λ k. omega (arith, count_rows-append k some_rows more, count k, rest_count k),
      )
