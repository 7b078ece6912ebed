-- ===== src/Tax/Rules/Order.antt =====
-- The result of `sort_tax_categories`.
use mathlib.Core.List.{Perm}
use alpha_shadow.Prelude.{
  guard-eq-ok, ◌<◌, ◌≡◌, Bool, true, false, not, leb, any, all, ◌&&◌, All, All-map, arith, List, [],
  ◌∷◌, Text, text_beq, text_beq_iff, text_ltb, text_ltb_irrefl, text_ltb_trans, text_ltb-total, ok,
  guard, tax_configuration, >>=-eq-ok, guard-not, ok-injective, ◌≢◌,
}
use alpha_shadow.Prelude.Sort.{sort, sort-perm, IsSorted, sort-IsSorted}
use alpha_shadow.Tax.Rules.{
  TaxCategory, is_excise, category_before, distinct_ids, excise_not_below_vat, sort_tax_categories,
}

text_ltb-weak : (x y z : Text) → text_ltb y x ≡ false → text_ltb z y ≡ false → text_ltb z x ≡ false
text_ltb-weak x y z h k = ground (arith, text_ltb-total x y, text_ltb_trans z x y, h, k)

category_before-weak :
    (x y z : TaxCategory)
    → category_before y x ≡ false
    → category_before z y ≡ false
    → category_before z x ≡ false
unfolding category_before
category_before-weak x y z h k = ground (arith, text_ltb-weak x.id y.id z.id, h, k)

category_before-asym :
    (x y : TaxCategory) → category_before x y ≡ true → category_before y x ≡ false
unfolding category_before
category_before-asym x y h = ground (arith, text_ltb_trans x.id y.id x.id, text_ltb_irrefl x.id, h)

any-false : {A : Type 0} (p : A → Bool) (xs : List A) → any p xs ≡ false → All (λ x. p x ≡ false) xs
any-false p [] h = tt
any-false p (x ∷ xs) h = (ground arith, any-false p xs (ground arith))

all-true : {A : Type 0} (p : A → Bool) (xs : List A) → all p xs ≡ true → All (λ x. p x ≡ true) xs
all-true p [] h = tt
all-true p (x ∷ xs) h = (ground arith, all-true p xs (ground arith))

-- No two entries have one id.
abbrev pub Distinct : List TaxCategory → Type 0
Distinct [] = Unit
Distinct (c ∷ rest) = All (λ d. c.id ≢ d.id) rest × Distinct rest

distinct_ids-Distinct : (cs : List TaxCategory) → distinct_ids cs ≡ true → Distinct cs
unfolding distinct_ids
distinct_ids-Distinct [] h = tt
distinct_ids-Distinct (c ∷ rest) h = (
  All-map (λ d. not (text_beq c.id d.id) ≡ true) (λ d. c.id ≢ d.id) rest
      (λ d k e. ground (arith, text_beq_iff c.id d.id, k, e))
      (all-true (λ d. not (text_beq c.id d.id)) rest (ground arith)),
  distinct_ids-Distinct rest (ground arith),
)

-- Every excise of the list is strictly below every VAT of the list.
abbrev pub ExciseBelowVat : List TaxCategory → Type 0
ExciseBelowVat cs =
    All
      (λ e.
        All
          (λ v.
            is_excise e.tax_family ≡ true
            → is_excise v.tax_family ≡ false
            → e.cascade_priority < v.cascade_priority)
          cs)
      cs

above_no_vat :
    (e : TaxCategory) (cs : List TaxCategory)
    → (is_excise e.tax_family
        && any (λ v. not (is_excise v.tax_family) && leb v.cascade_priority e.cascade_priority) cs)
      ≡ false
    → All
        (λ v.
          is_excise e.tax_family ≡ true
          → is_excise v.tax_family ≡ false
          → e.cascade_priority < v.cascade_priority)
        cs
above_no_vat e [] h = tt
above_no_vat e (v ∷ vs) h = ((λ a b. ground arith), above_no_vat e vs (ground arith))

excise_not_below_vat_sound :
    (cs : List TaxCategory) → excise_not_below_vat cs ≡ false → ExciseBelowVat cs
unfolding excise_not_below_vat
excise_not_below_vat_sound cs h =
    All-map _ _ cs (λ e. above_no_vat e cs)
      (any-false
        (λ e.
          is_excise e.tax_family
          && any (λ v. not (is_excise v.tax_family) && leb v.cascade_priority e.cascade_priority)
              cs)
        cs h)

-- A sorted list of categories has the categories of the input, in the order of priority and then
-- of id, each id once, and every excise at a priority strictly below that of every VAT.
pub sort_tax_categories-eq-ok :
    (categories : List TaxCategory) {sorted : List TaxCategory}
    → sort_tax_categories categories ≡ ok sorted
    → Perm sorted categories
      × IsSorted category_before sorted
      × Distinct sorted
      × ExciseBelowVat sorted
unfolding sort_tax_categories
sort_tax_categories-eq-ok categories {sorted} h =
    let order = sort category_before categories in
    let (_, distinct, rest) = >>=-eq-ok (guard (distinct_ids order) tax_configuration) _ h in
    let (_, below, done) =
      >>=-eq-ok (guard (not (excise_not_below_vat order)) tax_configuration) _ rest in
    rw (← ok-injective done) (
      sort-perm category_before categories,
      sort-IsSorted category_before category_before-weak category_before-asym categories,
      distinct_ids-Distinct order (guard-eq-ok _ _ distinct),
      excise_not_below_vat_sound order (guard-not _ _ below),
    )
