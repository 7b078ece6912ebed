-- ===== src/Tax/Rules.antt =====
-- domain/contracts/tax.ts, the records that the computation reads, and `sortTaxCategories` and
-- `assertOrdinaryTaxCategory` of domain/contracts/tax-rules.ts. Priorities are the database's small natural numbers.
pub mod Order
use alpha_shadow.Prelude.{
  ℕ, Bool, true, false, not, ◌&&◌, ◌||◌, ltb, leb, ◌==◌, any, all, arith, if◌then◌else◌, Option,
  none, some, Num, ℤ, List, [], ◌∷◌, map, Text, text_eq, ◌===◌, text_ltb, Result, ok, err, ◌>>=◌,
  ◌>>◌, guard, tax_configuration, excise_confirmation_required,
}
use alpha_shadow.Prelude.Sort.{sort}

pub data TaxFamily : Type 0 where
  vat excise : TaxFamily

pub data TaxRoundingStrategy : Type 0 where
  per_line invoice_total : TaxRoundingStrategy

pub data TaxLiableParty : Type 0 where
  restaurant marketplace : TaxLiableParty

pub data TaxCategoryKind : Type 0 where
  standard reduced zero_rated exempt no_vat : TaxCategoryKind

pub record TaxCategory : Type 0 where
  pub id : Text
  pub country_code : Text
  pub kind : TaxCategoryKind
  pub is_active : Bool
  pub tax_family : TaxFamily
  pub cascade_priority : ℕ

pub record TaxRate : Type 0 where
  pub source : Option Text
  pub id : Text
  pub tax_category_id : Text
  pub rate_bps : Num
  pub is_price_inclusive_default : Bool
  pub effective_from : Text
  pub effective_to : Option Text
  pub superseded_by : Option Text

pub record ResolvedTaxLine : Type 0 where
  pub source : Option Text
  pub tax_rate_id : Text
  pub tax_family : TaxFamily
  pub computation_sequence : ℕ
  pub liable_party : TaxLiableParty
  pub rate_bps : Num
  pub is_price_inclusive : Bool
  pub taxable_amount_minor : ℤ
  pub tax_amount_minor : ℕ

abbrev pub is_excise : TaxFamily → Bool
is_excise vat = false
is_excise excise = true

-- The comparator is negative.
unfoldable pub category_before : TaxCategory → TaxCategory → Bool
category_before a b =
    ltb a.cascade_priority b.cascade_priority
    || (a.cascade_priority == b.cascade_priority) && text_ltb a.id b.id

unfoldable pub assert_ordinary_tax_category : TaxCategory → Result (Unit {0})
assert_ordinary_tax_category category = do
  guard category.is_active tax_configuration
  guard (not (is_excise category.tax_family)) excise_confirmation_required

-- `new Set(ids).size === ids.length`, for the ids of the categories.
unfoldable pub distinct_ids : List TaxCategory → Bool
distinct_ids [] = true
distinct_ids (c ∷ rest) = all (λ d. not (c.id === d.id)) rest && distinct_ids rest

-- An excise category stands at or above the priority of a VAT category.
unfoldable pub excise_not_below_vat : List TaxCategory → Bool
excise_not_below_vat sorted =
    any
      (λ e.
        is_excise e.tax_family
        && any (λ v. not (is_excise v.tax_family) && leb v.cascade_priority e.cascade_priority)
            sorted)
      sorted

unfoldable pub sort_tax_categories : List TaxCategory → Result (List TaxCategory)
sort_tax_categories categories = do
  let sorted = sort category_before categories
  guard (distinct_ids sorted) tax_configuration
  guard (not (excise_not_below_vat sorted)) tax_configuration
  ok sorted
