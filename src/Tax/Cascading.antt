-- ===== src/Tax/Cascading.antt =====
-- application/engines/tax/cascading.ts: `calculateCascadingTaxes`.
pub mod Rows
pub mod Stages
pub mod Bases
pub mod Groups
pub mod Runs
pub mod Collected
pub mod Ordered
pub mod Priorities
pub mod Lines
use alpha_shadow.Prelude.{
  ℕ, zero, suc, ◌+◌, Bool, true, false, not, ◌&&◌, ◌||◌, ltb, leb, ◌==◌, arith, if◌then◌else◌,
  Option, none, some, Num, int, non_integer, ℤ, pos, ◌+ℤ◌, ◌-ℤ◌, eqb_ℤ, length, List, [], ◌∷◌, ◌++◌,
  map, Text, text_eq, ◌===◌, Result, ok, err, ◌>>=◌, ◌>>◌, guard, tax_configuration,
}
use alpha_shadow.Prelude.Assoc.{get, has, put}
use alpha_shadow.Prelude.Sort.{sort}
use alpha_shadow.Tax.Math.{assert_tax_amount, calculate_tax_amount}
use alpha_shadow.Tax.Math.Invoice.{InvoiceTaxShare, allocate_invoice_tax}
use alpha_shadow.Tax.Rules.{
  TaxRoundingStrategy, per_line, invoice_total, restaurant, TaxCategory, TaxRate, ResolvedTaxLine,
  sort_tax_categories,
}

pub record ApplicableTax : Type 0 where
  pub category : TaxCategory
  pub rate : TaxRate

pub record TaxComputationPlan : Type 0 where
  pub order_line_id : Text
  pub amount_minor : ℤ
  pub currency_code : Text
  pub taxes : List ApplicableTax

pub record Work : Type 0 where
  pub line_id : Text
  pub currency_code : Text
  pub base : ℤ
  pub sequence : ℕ
  pub tax : ApplicableTax

-- The array whose JSON text is the id of a group.
pub record GroupId : Type 0 where
  pub rate_id : Text
  pub rate_bps : Num
  pub inclusive : Bool
  pub currency_code : Text

abbrev pub num_beq : Num → Num → Bool
num_beq (int a) (int b) = eqb_ℤ a b
num_beq non_integer non_integer = true
num_beq _ _ = false

abbrev pub same_flag : Bool → Bool → Bool
same_flag true b = b
same_flag false b = not b

unfoldable pub group_beq : GroupId → GroupId → Bool
group_beq a b =
    (a.rate_id === b.rate_id)
    && num_beq a.rate_bps b.rate_bps
    && same_flag a.inclusive b.inclusive
    && (a.currency_code === b.currency_code)

unfoldable pub find_tax : Text → List ApplicableTax → Option ApplicableTax
find_tax id [] = none
find_tax id (t ∷ rest) =
    let found = find_tax id rest in if t.category.id === id then some t else found

abbrev pub matching : TaxCategory → Option ApplicableTax → Result ApplicableTax
matching category none = err tax_configuration
matching category (some tax) =
    if tax.rate.tax_category_id === category.id then ok tax else err tax_configuration

-- The taxes of the sorted categories.
unfoldable pub order_taxes : List ApplicableTax → List TaxCategory → Result (List ApplicableTax)
order_taxes taxes [] = ok []
order_taxes taxes (category ∷ rest) = do
  tax ← matching category (find_tax category.id taxes)
  later ← order_taxes taxes rest
  ok (tax ∷ later)

abbrev pub category_count : List ApplicableTax → Bool
category_count taxes = not (length taxes == 0) && leb (length taxes) 32_767

-- The first loop: the ordered taxes of every line; an id that was seen is refused.
unfoldable pub order_plans :
    List (Text × List ApplicableTax)
    → List TaxComputationPlan
    → Result (List (Text × List ApplicableTax))
order_plans seen [] = ok seen
order_plans seen (plan ∷ rest) = do
  amount ← assert_tax_amount plan.amount_minor
  guard (not (has plan.order_line_id seen)) tax_configuration
  guard (category_count plan.taxes) tax_configuration
  sorted ← sort_tax_categories (map (λ t. t.category) plan.taxes)
  ordered ← order_taxes plan.taxes sorted
  order_plans (put plan.order_line_id ordered seen) rest

-- The set of the priorities, in ascending order.
unfoldable pub insert_priority : ℕ → List ℕ → List ℕ
insert_priority p [] = p ∷ []
insert_priority p (q ∷ rest) =
    let later = insert_priority p rest in
    if p == q then q ∷ rest else if ltb p q then p ∷ q ∷ rest else q ∷ later

unfoldable pub add_priorities : List ApplicableTax → List ℕ → List ℕ
unfolding insert_priority
add_priorities [] ps = ps
add_priorities (t ∷ rest) ps = insert_priority t.category.cascade_priority (add_priorities rest ps)

unfoldable pub priorities_of : List (Text × List ApplicableTax) → List ℕ
unfolding add_priorities
priorities_of [] = []
priorities_of ((id, taxes) ∷ rest) = add_priorities taxes (priorities_of rest)

abbrev pub or_none : Option (List ApplicableTax) → List ApplicableTax
or_none none = []
or_none (some taxes) = taxes

abbrev pub or_zero_minor : Option ℤ → ℤ
or_zero_minor none = pos 0
or_zero_minor (some n) = n

abbrev pub group_id : Text → TaxRate → GroupId
group_id currency rate = record {
  rate_id = rate.id;
  rate_bps = rate.rate_bps;
  inclusive = rate.is_price_inclusive_default;
  currency_code = currency;
}

-- `groups.get(id) ?? []`, pushed to and set.
unfoldable pub push_work : GroupId → Work → List (GroupId × List Work) → List (GroupId × List Work)
push_work id work [] = (id, work ∷ []) ∷ []
push_work id work ((other, works) ∷ rest) =
    let later = push_work id work rest in
    if group_beq other id then (other, works ++ (work ∷ [])) ∷ rest else (other, works) ∷ later

-- The callback of `taxes.forEach`, from the index `index`.
unfoldable pub collect_taxes :
    ℕ
    → TaxComputationPlan
    → ℤ
    → ℕ
    → List ApplicableTax
    → List (GroupId × List Work)
    → List (GroupId × List Work)
collect_taxes priority plan base index [] groups = groups
collect_taxes priority plan base index (tax ∷ rest) groups =
    let work : Work = record {
      line_id = plan.order_line_id;
      currency_code = plan.currency_code;
      base = base;
      sequence = index + 1;
      tax = tax;
    } in
    let groups' : List (GroupId × List Work) =
      if tax.category.cascade_priority == priority
      then push_work (group_id plan.currency_code tax.rate) work groups
      else groups in
    collect_taxes priority plan base (index + 1) rest groups'

unfoldable pub collect_plans :
    ℕ
    → List (Text × List ApplicableTax)
    → List (Text × ℤ)
    → List TaxComputationPlan
    → List (GroupId × List Work)
    → Result (List (GroupId × List Work))
collect_plans priority taxes totals [] groups = ok groups
collect_plans priority taxes totals (plan ∷ rest) groups = do
  let base = plan.amount_minor +ℤ or_zero_minor (get plan.order_line_id totals)
  checked ← assert_tax_amount base
  collect_plans priority taxes totals rest
      (collect_taxes priority plan base 0 (or_none (get plan.order_line_id taxes)) groups)

-- The rows of the lines, and what the lines have gathered at this priority.
pub record Progress : Type 0 where
  pub rows : List (Text × List ResolvedTaxLine)
  pub gathered : List (Text × ℤ)

unfoldable pub resolved_line : TaxRate → Work → ℕ → ResolvedTaxLine
resolved_line rate work tax = record {
  source = work.tax.rate.source;
  tax_rate_id = rate.id;
  tax_family = work.tax.category.tax_family;
  computation_sequence = work.sequence;
  liable_party = restaurant;
  rate_bps = rate.rate_bps;
  is_price_inclusive = rate.is_price_inclusive_default;
  taxable_amount_minor =
      if rate.is_price_inclusive_default then work.base -ℤ pos tax else work.base;
  tax_amount_minor = tax;
}

-- `result.get(id)?.push(row)`.
unfoldable pub push_row :
    Text → ResolvedTaxLine → List (Text × List ResolvedTaxLine) → List (Text × List ResolvedTaxLine)
push_row id row [] = []
push_row id row ((other, rows) ∷ rest) =
    let later = push_row id row rest in
    if other === id then (other, rows ++ (row ∷ [])) ∷ rest else (other, rows) ∷ later

-- The row and the total that a work adds: only a tax that the price does not include is gathered.
unfoldable pub record_tax : TaxRate → Work → ℕ → Progress → Progress
record_tax rate work tax state = record {
  rows = push_row work.line_id (resolved_line rate work tax) state.rows;
  gathered =
      if rate.is_price_inclusive_default
      then state.gathered
      else put work.line_id (or_zero_minor (get work.line_id state.gathered) +ℤ pos tax)
          state.gathered;
}

abbrev pub allocated : Option ℕ → Result ℕ
allocated none = err tax_configuration
allocated (some n) = ok n

-- The tax of a work: its own, or its share of the group's.
unfoldable pub work_tax : TaxRate → Option (List (Text × ℕ)) → Work → Result ℕ
work_tax rate none work = do
  computed ← calculate_tax_amount work.base rate.rate_bps rate.is_price_inclusive_default
  ok computed.tax_amount_minor
work_tax rate (some allocations) work = allocated (get work.line_id allocations)

unfoldable pub run_works :
    TaxRate → Option (List (Text × ℕ)) → List Work → Progress → Result Progress
run_works rate allocations [] state = ok state
run_works rate allocations (work ∷ rest) state = do
  tax ← work_tax rate allocations work
  run_works rate allocations rest (record_tax rate work tax state)

abbrev pub shares_of : List Work → List InvoiceTaxShare
shares_of = map (λ w. record { id = w.line_id; amount_minor = w.base })

abbrev pub group_allocations :
    TaxRoundingStrategy → TaxRate → List Work → Result (Option (List (Text × ℕ)))
group_allocations per_line rate works = ok none
group_allocations invoice_total rate works = do
  shares ← allocate_invoice_tax (shares_of works) rate.rate_bps rate.is_price_inclusive_default
  ok (some shares)

unfoldable pub run_group : TaxRoundingStrategy → List Work → Progress → Result Progress
run_group strategy [] state = ok state
run_group strategy (first ∷ rest) state = do
  allocations ← group_allocations strategy first.tax.rate (first ∷ rest)
  run_works first.tax.rate allocations (first ∷ rest) state

unfoldable pub run_groups :
    TaxRoundingStrategy → List (GroupId × List Work) → Progress → Result Progress
run_groups strategy [] state = ok state
run_groups strategy ((id, works) ∷ rest) state = do
  after ← run_group strategy works state
  run_groups strategy rest after

unfoldable pub advance : List (Text × ℤ) → List (Text × ℤ) → List (Text × ℤ)
advance [] totals = totals
advance ((id, subtotal) ∷ rest) totals =
    advance rest (put id (or_zero_minor (get id totals) +ℤ subtotal) totals)

-- The loop over the priorities.
unfoldable pub run_priorities :
    TaxRoundingStrategy
    → List TaxComputationPlan
    → List (Text × List ApplicableTax)
    → List ℕ
    → List (Text × ℤ)
    → List (Text × List ResolvedTaxLine)
    → Result (List (Text × List ResolvedTaxLine))
run_priorities strategy plans taxes [] totals rows = ok rows
run_priorities strategy plans taxes (priority ∷ rest) totals rows = do
  groups ← collect_plans priority taxes totals plans []
  state ← run_groups strategy groups (record { rows = rows; gathered = [] })
  run_priorities strategy plans taxes rest (advance state.gathered totals) state.rows

abbrev pub sequence_before : ResolvedTaxLine → ResolvedTaxLine → Bool
sequence_before a b = ltb a.computation_sequence b.computation_sequence

abbrev pub sort_rows : Text × List ResolvedTaxLine → Text × List ResolvedTaxLine
sort_rows (id, rows) = (id, sort sequence_before rows)

abbrev pub no_rows : Text × List ApplicableTax → Text × List ResolvedTaxLine
no_rows (id, taxes) = (id, [])

abbrev pub no_total : Text × List ApplicableTax → Text × ℤ
no_total (id, taxes) = (id, pos 0)

-- The strategy is one of the two of its type.
unfoldable pub calculate_cascading_taxes :
    List TaxComputationPlan → TaxRoundingStrategy → Result (List (Text × List ResolvedTaxLine))
calculate_cascading_taxes plans strategy = do
  taxes ← order_plans [] plans
  rows ←
      run_priorities strategy plans taxes (priorities_of taxes) (map no_total taxes)
        (map no_rows taxes)
  ok (map sort_rows rows)
