-- ===== src/Tax/Liability.antt =====
-- application/engines/tax/tax-resolution-engine.ts: who is liable for the tax of a line. This first
-- phase of `prepareLine` reads no item, category or rate: its store has none.
pub mod Choice
use alpha_shadow.Prelude.{
  ℕ, Bool, true, false, not, ◌&&◌, ◌||◌, leb, length, if◌then◌else◌, Option, none, some, ℤ, List,
  [], ◌∷◌, Text, text_eq, ◌===◌, text_ltb, Result, ok, err, ◌>>=◌, ◌>>◌, guard, validation,
  not_found, tax_configuration, no_applicable_tax_liability_rule,
}
use alpha_shadow.Prelude.Transactions.{some_or}
use alpha_shadow.Tax.Math.{assert_tax_amount}
use alpha_shadow.Tax.Rules.{TaxRoundingStrategy, TaxLiableParty}
use alpha_shadow.Tax.Dates.{tax_date_in_timezone}

pub record TaxJurisdiction : Type 0 where
  pub rounding_strategy : TaxRoundingStrategy
  pub is_active : Bool

pub record TaxBranch : Type 0 where
  pub country_code : Option Text
  pub currency_code : Text
  pub timezone : Text
  pub is_active : Bool
  pub jurisdiction : Option TaxJurisdiction

pub record DeliveryPlatform : Type 0 where
  pub country_code : Option Text
  pub is_active : Bool

pub record TaxLiabilityRule : Type 0 where
  pub id : Text
  pub country_code : Text
  pub sales_channel_code : Text
  pub delivery_platform_id : Option Text
  pub applies_when_tenant_registered : Bool
  pub liable_party : TaxLiableParty
  pub effective_from : Text
  pub effective_to : Option Text

pub record TaxLineRequest : Type 0 where
  pub order_line_id : Text
  pub branch_id : Text
  pub menu_item_id : Text
  pub gross_or_net_amount_minor : ℤ
  pub currency_code : Text
  pub time : ℕ
  pub sales_channel : Text
  pub delivery_platform_id : Option Text

pub record OrderLineTaxContext : Type 0 where
  pub request : TaxLineRequest
  pub liability_rule_id : Text
  pub liable_party : TaxLiableParty
  pub rounding_strategy : TaxRoundingStrategy

-- What the first phase reads of `TaxResolutionTransaction`; a sales channel is whether it requires
-- a platform.
pub record LiabilityReads : Type 0 where
  pub get_branch : Text → Option TaxBranch
  pub get_sales_channel : Text → Option Bool
  pub get_delivery_platform : Text → Option DeliveryPlatform
  pub is_registered : Bool
  pub find_liability_rules : Text → Text → Option Text → Bool → Text → List TaxLiabilityRule
  pub format_to_parts : ℕ → Text → Option (List (Text × Text))

abbrev pub same_flag : Bool → Bool → Bool
same_flag true b = b
same_flag false b = not b

abbrev pub same_platform : Option Text → Option Text → Bool
same_platform none none = true
same_platform (some a) (some b) = a === b
same_platform _ _ = false

abbrev pub keep {ℓ} : {A : Type ℓ} → (A → Bool) → List A → List A
keep p [] = []
keep p (x ∷ rest) = let later = keep p rest in if p x then x ∷ later else later

abbrev pub the_rule : List TaxLiabilityRule → Result TaxLiabilityRule
the_rule [] = err no_applicable_tax_liability_rule
the_rule (rule ∷ []) = ok rule
the_rule (rule ∷ other ∷ rest) = err tax_configuration

abbrev pub or_else : List TaxLiabilityRule → List TaxLiabilityRule → List TaxLiabilityRule
or_else [] general = general
or_else (rule ∷ rest) general = rule ∷ rest

-- The rules of the platform itself come before those of no platform.
unfoldable pub choose_liability_rule : List TaxLiabilityRule → Option Text → Result TaxLiabilityRule
choose_liability_rule rules platform = the_rule (
    or_else (keep (λ r. same_platform r.delivery_platform_id platform) rules)
      (keep (λ r. same_platform r.delivery_platform_id none) rules))

abbrev pub still_effective : Option Text → Text → Bool
still_effective none on = true
still_effective (some to) on = not (text_ltb to on)

unfoldable pub rule_matches : TaxLineRequest → Text → Bool → Text → TaxLiabilityRule → Bool
rule_matches request country registered on rule =
    (rule.country_code === country)
    && (rule.sales_channel_code === request.sales_channel)
    && same_flag rule.applies_when_tenant_registered registered
    && not (text_ltb on rule.effective_from)
    && still_effective rule.effective_to on
    && (same_platform rule.delivery_platform_id none
        || same_platform rule.delivery_platform_id request.delivery_platform_id)

abbrev pub is_present : Option Text → Bool
is_present none = false
is_present (some id) = true

abbrev pub serves_country : Option Text → Text → Bool
serves_country none country = true
serves_country (some code) country = code === country

abbrev pub active_platform : LiabilityReads → Option Text → Text → Result (Unit {0})
active_platform reads none country = ok tt
active_platform reads (some id) country = do
  platform ← some_or tax_configuration (reads.get_delivery_platform id)
  guard (platform.is_active && serves_country platform.country_code country) tax_configuration

-- What the first phase decides: the context, the country, and the date at the branch.
pub record Liability : Type 0 where
  pub context : OrderLineTaxContext
  pub country_code : Text
  pub on : Text

unfoldable pub decide_liability : LiabilityReads → TaxLineRequest → Result Liability
decide_liability reads request = do
  amount ← assert_tax_amount request.gross_or_net_amount_minor
  branch ← some_or not_found (reads.get_branch request.branch_id)
  guard branch.is_active not_found
  country ← some_or tax_configuration branch.country_code
  jurisdiction ← some_or tax_configuration branch.jurisdiction
  guard jurisdiction.is_active tax_configuration
  guard (request.currency_code === branch.currency_code) validation
  on ← tax_date_in_timezone reads.format_to_parts request.time branch.timezone
  requires_platform ← some_or tax_configuration (reads.get_sales_channel request.sales_channel)
  guard (same_flag requires_platform (is_present request.delivery_platform_id)) validation
  active_platform reads request.delivery_platform_id country
  let candidates =
      reads.find_liability_rules country request.sales_channel request.delivery_platform_id
        reads.is_registered on
  rule ←
      choose_liability_rule (keep (rule_matches request country reads.is_registered on) candidates)
        request.delivery_platform_id
  ok (record {
    context = record {
      request = request;
      liability_rule_id = rule.id;
      liable_party = rule.liable_party;
      rounding_strategy = jurisdiction.rounding_strategy;
    };
    country_code = country;
    on = on;
  })
