-- ===== src/Examples/LiabilityCases.antt =====
-- The liability rules of an order through a platform.
use alpha_shadow.Prelude.{
  ◌≡◌, refl, true, false, none, some, pos, List, [], ◌∷◌, codes, map, text_beq, text_ltb, ok, err,
  not_found,
}
use alpha_shadow.Prelude.Assoc.{get}
use alpha_shadow.Money.Decimal.{digits_value}
use alpha_shadow.Tax.Math.{assert_tax_amount}
use alpha_shadow.Tax.Rules.{per_line, restaurant, marketplace}
use alpha_shadow.Tax.Dates.{is_tax_date, assert_tax_date, tax_date_in_timezone}
use alpha_shadow.Tax.Liability.{
  TaxBranch, TaxLiabilityRule, TaxLineRequest, LiabilityReads, choose_liability_rule, rule_matches,
  Liability, decide_liability,
}
use alpha_shadow.Tax.Resolution.{CatalogReads, PreparedLine, restaurant_line, prepare_line}
use alpha_shadow.Tax.Resolution.Party.{prepare_line-marketplace}
use alpha_shadow.Tax.Snapshots.{
  TaxResolution, marker, TaxWrite, insert_context, lower, assert_tenant_scope, resolve_and_snapshot,
}
use alpha_shadow.Tax.Snapshots.Writes.{IsResolved, resolve_and_snapshot-eq-ok}
use alpha_shadow.Tax.Invoices.{resolve_invoice}
use alpha_shadow.Tax.Invoices.Errors.{resolve_invoice-unwritten}

abbrev general_rule : TaxLiabilityRule
general_rule = record {
  id = codes "g";
  country_code = codes "SA";
  sales_channel_code = codes "app";
  delivery_platform_id = none;
  applies_when_tenant_registered = true;
  liable_party = restaurant;
  effective_from = codes "2024-01-01";
  effective_to = none;
}

abbrev platform_rule : TaxLiabilityRule
platform_rule = record {
  id = codes "p";
  country_code = codes "SA";
  sales_channel_code = codes "app";
  delivery_platform_id = some (codes "x");
  applies_when_tenant_registered = true;
  liable_party = marketplace;
  effective_from = codes "2024-01-01";
  effective_to = some (codes "2024-12-31");
}

abbrev both_rules : List TaxLiabilityRule
both_rules = general_rule ∷ platform_rule ∷ []

platform-chosen : choose_liability_rule both_rules (some (codes "x")) ≡ ok platform_rule
unfolding choose_liability_rule text_beq
platform-chosen = refl

abbrev app_line : TaxLineRequest
app_line = record {
  order_line_id = codes "l";
  branch_id = codes "b";
  menu_item_id = codes "i";
  gross_or_net_amount_minor = pos 1000;
  currency_code = codes "SAR";
  time = 0;
  sales_channel = codes "app";
  delivery_platform_id = some (codes "x");
}

abbrev ksa_branch : TaxBranch
ksa_branch = record {
  country_code = some (codes "SA");
  currency_code = codes "SAR";
  timezone = codes "Asia/Riyadh";
  is_active = true;
  jurisdiction = some (record { rounding_strategy = per_line; is_active = true });
}

abbrev one_branch : LiabilityReads
one_branch = record {
  get_branch = λ _. some ksa_branch;
  get_sales_channel = λ _. some true;
  get_delivery_platform = λ _. some (record { country_code = none; is_active = true });
  is_registered = true;
  find_liability_rules = λ _ _ _ _ _. both_rules;
  format_to_parts = λ _ _.
      some (
        (codes "year", codes "2024")
        ∷ (codes "month", codes "06")
        ∷ (codes "day", codes "01")
        ∷ []);
}

abbrev app_liability : Liability
app_liability = record {
  context = record {
    request = app_line;
    liability_rule_id = codes "p";
    liable_party = marketplace;
    rounding_strategy = per_line;
  };
  country_code = codes "SA";
  on = codes "2024-06-01";
}

app_line-decided : decide_liability one_branch app_line ≡ ok app_liability
unfolding decide_liability choose_liability_rule rule_matches assert_tax_amount tax_date_in_timezone
    assert_tax_date is_tax_date digits_value get text_beq text_ltb
app_line-decided = refl

abbrev no_items : CatalogReads
no_items = record {
  get_menu_item_assignment = λ _. none;
  get_category = λ _. none;
  get_branch_override = λ _ _. none;
  get_applicable_rate = λ _ _. none;
  has_excise_confirmation = λ _ _ _. false;
}

abbrev plain_items : CatalogReads
plain_items = record {
  get_menu_item_assignment = λ _. some (record {
    is_active = true;
    tax_rule_id = some (codes "v");
    additional_tax_category_ids = [];
  });
  get_category = λ _. none;
  get_branch_override = λ _ _. none;
  get_applicable_rate = λ _ _. none;
  has_excise_confirmation = λ _ _ _. false;
}

prepare_line-marketplace_example :
    prepare_line no_items one_branch app_line ≡ prepare_line plain_items one_branch app_line
prepare_line-marketplace_example =
    prepare_line-marketplace no_items plain_items one_branch app_line app_line-decided refl

abbrev app_marker : TaxResolution
app_marker = marker (record {
  liability_rule_id = codes "p";
  country_code = codes "SA";
  sales_channel = codes "app";
  delivery_platform_id = codes "x";
})

app_line-resolved :
    resolve_and_snapshot one_branch no_items (codes "T1") (codes "t1") app_line []
    ≡ (ok app_marker, insert_context app_liability.context ∷ [])
unfolding resolve_and_snapshot assert_tenant_scope prepare_line decide_liability
    choose_liability_rule rule_matches assert_tax_amount tax_date_in_timezone assert_tax_date
    is_tax_date digits_value get text_beq text_ltb
app_line-resolved = refl

resolve_and_snapshot-eq-ok_example :
    (map lower (codes "T1") ≡ map lower (codes "t1"))
    × (line : PreparedLine) × (prepare_line no_items one_branch app_line ≡ ok line)
    × IsResolved line line.taxes app_marker [] (insert_context app_liability.context ∷ [])
resolve_and_snapshot-eq-ok_example =
    resolve_and_snapshot-eq-ok one_branch no_items (codes "T1") (codes "t1") app_line []
      app_line-resolved

abbrev second_line : TaxLineRequest
second_line = record {
  order_line_id = codes "m";
  branch_id = codes "b";
  menu_item_id = codes "j";
  gross_or_net_amount_minor = pos 500;
  currency_code = codes "SAR";
  time = 0;
  sales_channel = codes "app";
  delivery_platform_id = some (codes "x");
}

abbrev general_branch : LiabilityReads
general_branch = record {
  get_branch = λ _. some ksa_branch;
  get_sales_channel = λ _. some true;
  get_delivery_platform = λ _. some (record { country_code = none; is_active = true });
  is_registered = true;
  find_liability_rules = λ _ _ _ _ _. general_rule ∷ [];
  format_to_parts = λ _ _.
      some (
        (codes "year", codes "2024")
        ∷ (codes "month", codes "06")
        ∷ (codes "day", codes "01")
        ∷ []);
}

-- The writes of an earlier line.
abbrev earlier : List TaxWrite
earlier = insert_context app_liability.context ∷ []

-- The restaurant is liable for two items that are not found.
two_lines-refused :
    resolve_invoice general_branch no_items
      (codes "t1")
      (codes "t1")
      (app_line ∷ second_line ∷ [])
      earlier
    ≡ (err not_found, earlier)
unfolding resolve_invoice assert_tenant_scope prepare_line restaurant_line decide_liability
    choose_liability_rule rule_matches assert_tax_amount tax_date_in_timezone assert_tax_date
    is_tax_date digits_value get text_beq text_ltb
two_lines-refused = refl

resolve_invoice-unwritten_example : earlier ≡ earlier
resolve_invoice-unwritten_example =
    resolve_invoice-unwritten general_branch no_items (codes "t1") (codes "t1")
      (app_line ∷ second_line ∷ []) earlier two_lines-refused
