-- ===== src/Tax/Resolution.antt =====
-- application/engines/tax/tax-resolution-engine.ts: the later phases of `prepareLine`,
-- which read the item, its categories and their rates.
pub mod Party
use alpha_shadow.Prelude.{
  ℕ, Bool, true, false, not, ◌&&◌, ◌||◌, ◌+◌, leb, ◌==◌, any, all, map, if◌then◌else◌, Option, none,
  some, int, ℤ, pos, eqb_ℤ, List, [], ◌∷◌, Text, text_eq, ◌===◌, text_ltb, Result, ok, err, ◌>>=◌,
  ◌>>◌, guard, validation, not_found, tax_configuration, no_applicable_tax_rate,
  excise_confirmation_required, tenant_isolation_violation, invoice_tax_batch_required, Num,
  non_integer,
}
use alpha_shadow.Prelude.Assoc.{get}
use alpha_shadow.Prelude.Transactions.{some_or}
use alpha_shadow.Tax.Math.{assert_tax_rate_bps}
use alpha_shadow.Tax.Rules.{
  TaxRoundingStrategy, per_line, invoice_total, TaxLiableParty, restaurant, marketplace,
  TaxCategoryKind, standard, reduced, zero_rated, exempt, no_vat, TaxCategory, TaxRate,
  ResolvedTaxLine, is_excise, sort_tax_categories,
}
use alpha_shadow.Tax.Cascading.{ApplicableTax, TaxComputationPlan, calculate_cascading_taxes}
use alpha_shadow.Tax.Liability.{
  TaxLineRequest, OrderLineTaxContext, LiabilityReads, same_flag, still_effective, Liability,
  decide_liability,
}

pub record MenuItemTaxAssignment : Type 0 where
  pub is_active : Bool
  pub tax_rule_id : Option Text
  pub additional_tax_category_ids : List Text

-- What the later phases read of `TaxResolutionTransaction`.
pub record CatalogReads : Type 0 where
  pub get_menu_item_assignment : Text → Option MenuItemTaxAssignment
  pub get_category : Text → Option TaxCategory
  pub get_branch_override : Text → Text → Option Text
  pub get_applicable_rate : Text → Text → Option TaxRate
  pub has_excise_confirmation : Text → Text → Text → Bool

pub record ExternalTaxLiabilityMarker : Type 0 where
  pub liability_rule_id : Text
  pub country_code : Text
  pub sales_channel : Text
  pub delivery_platform_id : Text

pub data PreparedTaxes : Type 0 where
  external : ExternalTaxLiabilityMarker → PreparedTaxes
  computation : TaxComputationPlan → PreparedTaxes

pub record PreparedLine : Type 0 where
  pub context : OrderLineTaxContext
  pub taxes : PreparedTaxes

abbrev pub marketplace_line : Liability → Result PreparedLine
marketplace_line liability = do
  platform ← some_or tax_configuration liability.context.request.delivery_platform_id
  ok (record {
    context = liability.context;
    taxes = external (record {
      liability_rule_id = liability.context.liability_rule_id;
      country_code = liability.country_code;
      sales_channel = liability.context.request.sales_channel;
      delivery_platform_id = platform;
    });
  })

abbrev pub is_zero : Num → Bool
is_zero (int n) = eqb_ℤ n (pos 0)
is_zero non_integer = false

abbrev pub is_null : Option Text → Bool
is_null none = true
is_null (some text) = false

-- The rates that the kinds without tax may have.
abbrev pub rate_allowed : TaxCategoryKind → TaxRate → Bool
rate_allowed no_vat rate =
    is_zero rate.rate_bps && is_null rate.effective_to && is_null rate.superseded_by
rate_allowed zero_rated rate = is_zero rate.rate_bps
rate_allowed exempt rate = is_zero rate.rate_bps
rate_allowed standard rate = true
rate_allowed reduced rate = true

module _ (catalog : CatalogReads) where
  abbrev pub overridden : TaxCategory → Option Text → Result TaxCategory
  overridden source none = ok source
  overridden source (some id) = some_or tax_configuration (catalog.get_category id)

  -- A category as the branch overrides it, with the consent that an excise category needs.
  unfoldable pub resolve_category : TaxLineRequest → Text → Text → Result TaxCategory
  resolve_category request country original = do
    source ← some_or tax_configuration (catalog.get_category original)
    guard source.is_active tax_configuration
    category ← overridden source (catalog.get_branch_override request.branch_id original)
    guard (category.is_active && (category.country_code === country)) tax_configuration
    guard (same_flag (is_excise category.tax_family) (is_excise source.tax_family))
        tax_configuration
    guard
        (not (is_excise category.tax_family)
          || catalog.has_excise_confirmation request.menu_item_id category.id request.branch_id)
        excise_confirmation_required
    ok category

  abbrev pub resolve_categories : TaxLineRequest → Text → List Text → Result (List TaxCategory)
  resolve_categories request country [] = ok []
  resolve_categories request country (original ∷ rest) = do
    category ← resolve_category request country original
    later ← resolve_categories request country rest
    ok (category ∷ later)

  unfoldable pub rate_of : Text → TaxCategory → Result ApplicableTax
  rate_of on category = do
    rate ← some_or no_applicable_tax_rate (catalog.get_applicable_rate category.id on)
    bps ← assert_tax_rate_bps rate.rate_bps
    guard
        ((rate.tax_category_id === category.id)
          && not (text_ltb on rate.effective_from)
          && still_effective rate.effective_to on)
        tax_configuration
    guard (rate_allowed category.kind rate) tax_configuration
    ok (record { category = category; rate = rate })

  abbrev pub rates_of : Text → List TaxCategory → Result (List ApplicableTax)
  rates_of on [] = ok []
  rates_of on (category ∷ rest) = do
    tax ← rate_of on category
    later ← rates_of on rest
    ok (tax ∷ later)

  -- The computation of a line for which the restaurant is liable.
  unfoldable pub restaurant_line : Liability → Result PreparedLine
  restaurant_line liability = do
    let request : TaxLineRequest = liability.context.request
    assignment ← some_or not_found (catalog.get_menu_item_assignment request.menu_item_id)
    guard assignment.is_active not_found
    primary ← some_or tax_configuration assignment.tax_rule_id
    categories ←
        resolve_categories request liability.country_code
          (primary ∷ assignment.additional_tax_category_ids)
    ordered ← sort_tax_categories categories
    taxes ← rates_of liability.on ordered
    ok (record {
      context = liability.context;
      taxes = computation (record {
        order_line_id = request.order_line_id;
        amount_minor = request.gross_or_net_amount_minor;
        currency_code = request.currency_code;
        taxes = taxes;
      });
    })

  abbrev pub line_of : TaxLiableParty → Liability → Result PreparedLine
  line_of marketplace liability = marketplace_line liability
  line_of restaurant liability = restaurant_line liability

  unfoldable pub prepare_line : LiabilityReads → TaxLineRequest → Result PreparedLine
  prepare_line reads request = do
    liability ← decide_liability reads request
    line_of liability.context.liable_party liability
