-- ===== src/Examples/TaxCases.antt =====
-- Taxes at concrete lines.
use mathlib.Core.List.{Perm}
use alpha_shadow.Prelude.{
  ℕ, ◌≡◌, refl, All, true, false, arith, none, int, ℤ, pos, ◌+ℤ◌, ◌-ℤ◌, sum_of, List, [], ◌∷◌, map,
  Text, codes, text_beq, text_ltb, ok,
}
use alpha_shadow.Prelude.Assoc.{get, has, put}
use alpha_shadow.Prelude.Sort.{insert, sort, IsSorted}
use alpha_shadow.Tax.Math.{
  assert_tax_amount, assert_tax_rate_bps, half_up, round_tax_half_up, tax_denominator,
  ComputedTaxAmount, calculate_tax_amount,
}
use alpha_shadow.Tax.Math.Rounding.{IsHalfUp, IsTax, calculate_tax_amount-within}
use alpha_shadow.Tax.Math.Invoice.{
  InvoiceTaxShare, floor_shares, ranks_before, distribute, allocate_invoice_tax,
}
use alpha_shadow.Tax.Math.Invoice.Total.{map_total, numerator, allocate_invoice_tax-total}
use alpha_shadow.Tax.Rules.{
  vat, standard, excise, per_line, TaxCategory, ResolvedTaxLine, category_before, distinct_ids,
  excise_not_below_vat, sort_tax_categories,
}
use alpha_shadow.Tax.Rules.Order.{Distinct, ExciseBelowVat, sort_tax_categories-eq-ok}
use alpha_shadow.Tax.Cascading.{
  ApplicableTax, TaxComputationPlan, Work, group_beq, find_tax, order_taxes, order_plans,
  insert_priority, add_priorities, priorities_of, push_work, collect_taxes, collect_plans,
  resolved_line, push_row, record_tax, work_tax, run_works, run_group, run_groups, advance,
  run_priorities, calculate_cascading_taxes,
}
use alpha_shadow.Tax.Cascading.Rows.{keys}
use alpha_shadow.Tax.Cascading.Priorities.{Ascending}
use alpha_shadow.Tax.Cascading.Lines.{IsLine, calculate_cascading_taxes-IsLine}

calculate_tax_amount-within_example :
    (c : ComputedTaxAmount) × (calculate_tax_amount (pos 1150) (int (pos 1500)) true ≡ ok c)
    × IsTax 1150 1500 true c
calculate_tax_amount-within_example =
    calculate_tax_amount-within 1150 1500 true (omega arith) (omega arith)

abbrev two_shares : List InvoiceTaxShare
two_shares =
    record { id = codes "a"; amount_minor = pos 105 }
    ∷ record { id = codes "b"; amount_minor = pos 100 }
    ∷ []

abbrev two_taxes : List (Text × ℕ)
two_taxes = (codes "a", 16) ∷ (codes "b", 15) ∷ []

two_shares-allocated : allocate_invoice_tax two_shares (int (pos 1500)) false ≡ ok two_taxes
unfolding allocate_invoice_tax assert_tax_rate_bps floor_shares assert_tax_amount has get put
    round_tax_half_up half_up distribute ranks_before sort insert ◌-ℤ◌ text_beq text_ltb
two_shares-allocated = refl

allocate_invoice_tax-total_example :
    IsHalfUp (sum_of (numerator 1500) two_shares) (tax_denominator 1500 false) (map_total two_taxes)
allocate_invoice_tax-total_example =
    allocate_invoice_tax-total two_shares 1500 false two_taxes two_shares-allocated

abbrev vat_category : TaxCategory
vat_category = record {
  id = codes "v";
  country_code = codes "SA";
  kind = standard;
  is_active = true;
  tax_family = vat;
  cascade_priority = 2;
}

abbrev excise_category : TaxCategory
excise_category = record {
  id = codes "e";
  country_code = codes "SA";
  kind = standard;
  is_active = true;
  tax_family = excise;
  cascade_priority = 1;
}

abbrev given_categories : List TaxCategory
given_categories = vat_category ∷ excise_category ∷ []

abbrev sorted_categories : List TaxCategory
sorted_categories = excise_category ∷ vat_category ∷ []

given_categories-sorted : sort_tax_categories given_categories ≡ ok sorted_categories
unfolding sort_tax_categories sort insert category_before distinct_ids excise_not_below_vat text_beq
    text_ltb
given_categories-sorted = refl

sort_tax_categories-eq-ok_example :
    Perm sorted_categories given_categories
    × IsSorted category_before sorted_categories
    × Distinct sorted_categories
    × ExciseBelowVat sorted_categories
sort_tax_categories-eq-ok_example =
    sort_tax_categories-eq-ok given_categories given_categories-sorted

abbrev vat_tax : ApplicableTax
vat_tax = record {
  category = vat_category;
  rate = record {
    source = none;
    id = codes "rv";
    tax_category_id = codes "v";
    rate_bps = int (pos 1500);
    is_price_inclusive_default = false;
    effective_from = codes "2020-01-01";
    effective_to = none;
    superseded_by = none;
  };
}

abbrev excise_tax : ApplicableTax
excise_tax = record {
  category = excise_category;
  rate = record {
    source = none;
    id = codes "re";
    tax_category_id = codes "e";
    rate_bps = int (pos 5000);
    is_price_inclusive_default = false;
    effective_from = codes "2020-01-01";
    effective_to = none;
    superseded_by = none;
  };
}

abbrev soda_plan : TaxComputationPlan
soda_plan = record {
  order_line_id = codes "l1";
  amount_minor = pos 1000;
  currency_code = codes "SAR";
  taxes = vat_tax ∷ excise_tax ∷ [];
}

abbrev soda_work : ApplicableTax → ℤ → ℕ → Work
soda_work tax base sequence = record {
  line_id = codes "l1";
  currency_code = codes "SAR";
  base = base;
  sequence = sequence;
  tax = tax;
}

abbrev soda_rows : List (Text × List ResolvedTaxLine)
soda_rows =
    (
      codes "l1",
      resolved_line excise_tax.rate (soda_work excise_tax (pos 1000) 1) 500
          ∷ resolved_line vat_tax.rate (soda_work vat_tax (pos 1500) 2) 225
          ∷ [],
    )
    ∷ []

-- The excise of 500 is part of the base of the VAT.
soda_plan-computed : calculate_cascading_taxes (soda_plan ∷ []) per_line ≡ ok soda_rows
unfolding calculate_cascading_taxes order_plans assert_tax_amount has get put sort_tax_categories
    sort insert category_before distinct_ids excise_not_below_vat text_beq text_ltb order_taxes
    find_tax priorities_of add_priorities insert_priority run_priorities collect_plans collect_taxes
    push_work group_beq run_groups run_group run_works work_tax calculate_tax_amount
    assert_tax_rate_bps round_tax_half_up half_up record_tax push_row resolved_line advance ◌+ℤ◌
    ◌-ℤ◌
soda_plan-computed = refl

calculate_cascading_taxes-IsLine_example :
    (keys soda_rows ≡ map (λ p. p.order_line_id) (soda_plan ∷ []))
    × (ps : List ℕ) × Ascending ps
    × All (IsLine per_line ps soda_rows) (soda_plan ∷ [])
calculate_cascading_taxes-IsLine_example =
    calculate_cascading_taxes-IsLine (soda_plan ∷ []) per_line soda_plan-computed
