-- ===== src/Tax/Invoices/Errors.antt =====
-- The errors of the tax of an invoice.
use mathlib.Core.Path.{subst}
use alpha_shadow.Prelude.{
  ◌≡◌, refl, sym, ap, ◌∙◌, true, any, all, map, inl, inr, Bool-cases, arith, some, All, All-map,
  List, [], ◌∷◌, Text, text_eq, text_beq, text_beq_iff, Error, Result, ok, err, guard, >>=-eq-ok,
  ok-injective, err-not-ok, validation, not_found, tax_configuration,
}
use alpha_shadow.Prelude.Assoc.{get, put}
use alpha_shadow.Prelude.Transactions.{some_or, and_then, lift-then}
use alpha_shadow.Tax.Rules.{
  TaxRoundingStrategy, TaxLiableParty, restaurant, marketplace, ResolvedTaxLine,
  sort_tax_categories,
}
use alpha_shadow.Tax.Cascading.{calculate_cascading_taxes}
use alpha_shadow.Tax.Cascading.Rows.{keys, keys-calculate_cascading_taxes}
use alpha_shadow.Tax.Liability.{TaxLineRequest, LiabilityReads, Liability, decide_liability}
use alpha_shadow.Tax.Resolution.{
  CatalogReads, PreparedTaxes, external, computation, PreparedLine, restaurant_line,
  resolve_categories, rates_of, line_of, prepare_line,
}
use alpha_shadow.Tax.Snapshots.{TaxResolution, tax_lines, TaxWrite, persisted, assert_tenant_scope}
use alpha_shadow.Tax.Invoices.{
  distinct_lines, same_invoice, first_request, first_strategy, has_strategy, plans_with, plans_of,
  resolution_of, Resolutions, persist_lines, with_line, prepare_lines, persist_prepared,
  resolve_lines, resolve_requests, resolve_invoice,
}

-- A computation carries the id of its line.
abbrev IsNamed : Text → PreparedTaxes → Type 0
IsNamed id (external m) = Unit
IsNamed id (computation plan) = plan.order_line_id ≡ id

abbrev NamedLine : PreparedLine → Type 0
NamedLine line = IsNamed line.context.request.order_line_id line.taxes

-- A line has a result among the lines of these ids.
abbrev IsListed : List Text → Text → PreparedTaxes → Type 0
IsListed ids id (external m) = Unit
IsListed ids id (computation plan) = any (λ k. text_beq k id) ids ≡ true

abbrev ListedLine : List Text → PreparedLine → Type 0
ListedLine ids line = IsListed ids line.context.request.order_line_id line.taxes

abbrev ids_of : List PreparedLine → List Text
ids_of lines = map (λ p. p.order_line_id) (plans_of lines)

abbrev ids_with : PreparedTaxes → List PreparedLine → List Text
ids_with taxes rest = map (λ p. p.order_line_id) (plans_with taxes (plans_of rest))

module _ (reads : LiabilityReads) (catalog : CatalogReads) where
  restaurant_line-named :
      (liability : Liability) {line : PreparedLine}
      → restaurant_line catalog liability ≡ ok line
      → NamedLine line
  unfolding restaurant_line
  restaurant_line-named liability h =
      let request : TaxLineRequest = liability.context.request in
      let (assignment, _, h1) =
        >>=-eq-ok (some_or not_found (catalog.get_menu_item_assignment request.menu_item_id)) _ h in
      let (_, _, h2) = >>=-eq-ok (guard assignment.is_active not_found) _ h1 in
      let (primary, _, h3) = >>=-eq-ok (some_or tax_configuration assignment.tax_rule_id) _ h2 in
      let (categories, _, h4) =
        >>=-eq-ok
          (resolve_categories catalog request liability.country_code
            (primary ∷ assignment.additional_tax_category_ids))
          _ h3 in
      let (ordered, _, h5) = >>=-eq-ok (sort_tax_categories categories) _ h4 in
      let (taxes, _, h6) = >>=-eq-ok (rates_of catalog liability.on ordered) _ h5 in
      subst NamedLine (ok-injective h6) refl

  line_of-named :
      (party : TaxLiableParty) (liability : Liability) {line : PreparedLine}
      → line_of catalog party liability ≡ ok line
      → NamedLine line
  line_of-named restaurant liability h = restaurant_line-named liability h
  line_of-named marketplace liability h =
      let (platform, _, h1) =
        >>=-eq-ok (some_or tax_configuration liability.context.request.delivery_platform_id) _ h in
      subst NamedLine (ok-injective h1) tt

  prepare_line-named :
      (request : TaxLineRequest) {line : PreparedLine}
      → prepare_line catalog reads request ≡ ok line
      → NamedLine line
  unfolding prepare_line
  prepare_line-named request h =
      let (liability, _, h1) = >>=-eq-ok (decide_liability reads request) _ h in
      line_of-named liability.context.liable_party liability h1

  with_line-named :
      (one : Result PreparedLine) (later : Result (List PreparedLine)) {lines : List PreparedLine}
      → ((line : PreparedLine) → one ≡ ok line → NamedLine line)
      → ((rest : List PreparedLine) → later ≡ ok rest → All NamedLine rest)
      → with_line one later ≡ ok lines
      → All NamedLine lines
  with_line-named (ok line) (ok rest) f g h =
      subst (All NamedLine) (ok-injective h) (f line refl, g rest refl)
  with_line-named (ok line) (err e) f g h = absurd (err-not-ok h)
  with_line-named (err e) later f g h = absurd (err-not-ok h)

  prepare_lines-named :
      (requests : List TaxLineRequest) {lines : List PreparedLine}
      → prepare_lines reads catalog requests ≡ ok lines
      → All NamedLine lines
  prepare_lines-named [] h = subst (All NamedLine) (ok-injective h) tt
  prepare_lines-named (request ∷ rest) h =
      with_line-named (prepare_line catalog reads request) (prepare_lines reads catalog rest)
        (λ line same. prepare_line-named request same) (λ lines same. prepare_lines-named rest same)
        h

listed-later :
    (id : Text) (ids : List Text) (line : PreparedLine)
    → ListedLine ids line
    → ListedLine (id ∷ ids) line
listed-later id ids line h = later line.taxes h
  where
    later :
        (taxes : PreparedTaxes)
        → IsListed ids line.context.request.order_line_id taxes
        → IsListed (id ∷ ids) line.context.request.order_line_id taxes
    later (external m) k = tt
    later (computation plan) k = ground (arith, k)

-- Every line is listed under the ids of the computations.
named-listed :
    (lines : List PreparedLine) → All NamedLine lines → All (ListedLine (ids_of lines)) lines
named-listed [] h = tt
named-listed (line ∷ rest) (named, h) = head line.taxes named (named-listed rest h)
  where
    head :
        (taxes : PreparedTaxes)
        → IsNamed line.context.request.order_line_id taxes
        → All (ListedLine (ids_of rest)) rest
        → IsListed (ids_with taxes rest) line.context.request.order_line_id taxes
          × All (ListedLine (ids_with taxes rest)) rest
    head (external m) n later = (tt, later)
    head (computation plan) n later =
        let same = (text_beq_iff plan.order_line_id line.context.request.order_line_id).1 n in
        (
          ground (arith, same),
          All-map (ListedLine (ids_of rest)) (ListedLine (plan.order_line_id ∷ ids_of rest)) rest
              (λ l. listed-later plan.order_line_id (ids_of rest) l) later,
        )

get-listed :
    {V : Type 0} (id : Text) (m : List (Text × V))
    → any (λ k. text_beq k id) (keys m) ≡ true
    → (v : V) × (get id m ≡ some v)
unfolding get
get-listed id [] h = ground (arith, h)
get-listed id ((j, v) ∷ m) h = elim (Bool-cases (text_beq j id)) [
  | inl same ↦ (v, rw same refl)
  | inr other ↦ let (u, is) = get-listed id m (ground (arith, other, h)) in (u, rw other is)
]

resolution_of-listed :
    (rows : List (Text × List ResolvedTaxLine)) (id : Text) (taxes : PreparedTaxes)
    → IsListed (keys rows) id taxes
    → (r : TaxResolution) × (resolution_of rows id taxes ≡ some r)
resolution_of-listed rows id (external m) h = (_, refl)
resolution_of-listed rows id (computation plan) h =
    let (v, is) = get-listed id rows h in (tax_lines v, rw is refl)

-- Lines that are all listed are written without an error.
persist_lines-listed :
    (rows : List (Text × List ResolvedTaxLine)) (lines : List PreparedLine) (result : Resolutions)
    (w : List TaxWrite)
    → All (ListedLine (keys rows)) lines
    → (r : Resolutions) × ((persist_lines rows lines result w).0 ≡ ok r)
persist_lines-listed rows [] result w h = (result, refl)
persist_lines-listed rows (line ∷ rest) result w (listed, h) =
    let id = line.context.request.order_line_id in
    let (r, is) = resolution_of-listed rows id line.taxes listed in
    let (results, done) =
      persist_lines-listed rows rest (put id r result) (persisted line.context r w) h in
    (results, rw is done)

-- An error of a transaction that has written nothing.
abbrev IsClean : {A : Type 0} → List TaxWrite → Result A × List TaxWrite → Type 0
IsClean w p = (e : Error) → p.0 ≡ err e → p.1 ≡ w

module _ (reads : LiabilityReads) (catalog : CatalogReads) (w : List TaxWrite) where
  persist_prepared-IsClean :
      (lines : List PreparedLine) (strategy : TaxRoundingStrategy)
      → All NamedLine lines
      → IsClean w (persist_prepared reads catalog lines strategy w)
  persist_prepared-IsClean lines strategy named =
      lift-then (IsClean w) (guard (all (has_strategy strategy) lines) tax_configuration)
        (λ _. and_calculate) w (λ _ _ _ _. refl)
        (λ _ _.
          lift-then (IsClean w) (calculate_cascading_taxes (plans_of lines) strategy) and_persist w
            (λ _ _ _ _. refl)
            (λ rows calculated e failed.
              let same = keys-calculate_cascading_taxes (plans_of lines) strategy calculated in
              let listed =
                subst (λ ids. All (ListedLine ids) lines) (sym same) (named-listed lines named) in
              let (r, done) = persist_lines-listed rows lines [] w listed in
              absurd (err-not-ok (sym failed ∙ done))))
    where
      and_persist :
          List (Text × List ResolvedTaxLine) → List TaxWrite → Result Resolutions × List TaxWrite
      and_persist rows = persist_lines rows lines []

      and_calculate : List TaxWrite → Result Resolutions × List TaxWrite
      and_calculate v =
          and_then and_persist (calculate_cascading_taxes (plans_of lines) strategy, v)

  resolve_lines-IsClean :
      (lines : List PreparedLine)
      → All NamedLine lines
      → IsClean w (resolve_lines reads catalog lines w)
  resolve_lines-IsClean lines named =
      lift-then (IsClean w) (first_strategy lines) (persist_prepared reads catalog lines) w
        (λ _ _ _ _. refl) (λ strategy _. persist_prepared-IsClean lines strategy named)

  resolve_requests-IsClean :
      (requests : List TaxLineRequest) (first : TaxLineRequest)
      → IsClean w (resolve_requests reads catalog requests first w)
  resolve_requests-IsClean requests first =
      lift-then (IsClean w) (guard (distinct_lines requests) validation) _ w (λ _ _ _ _. refl)
        (λ _ _.
          lift-then (IsClean w) (guard (all (same_invoice first) requests) validation) _ w
            (λ _ _ _ _. refl)
            (λ _ _.
              lift-then (IsClean w) (prepare_lines reads catalog requests)
                (resolve_lines reads catalog) w (λ _ _ _ _. refl)
                (λ lines prepared.
                  resolve_lines-IsClean lines
                    (prepare_lines-named reads catalog requests prepared))))

-- An invoice whose resolution fails has written nothing: every check comes before the first write,
-- and once the taxes are calculated, each line has its result.
pub resolve_invoice-unwritten :
    (reads : LiabilityReads) (catalog : CatalogReads) (own tenant : Text)
    (requests : List TaxLineRequest) (w : List TaxWrite) {e : Error} {w' : List TaxWrite}
    → resolve_invoice reads catalog own tenant requests w ≡ (err e, w')
    → w' ≡ w
unfolding resolve_invoice
resolve_invoice-unwritten reads catalog own tenant requests w {e} h =
    let clean =
      lift-then (IsClean w) (assert_tenant_scope own tenant) _ w (λ _ _ _ _. refl)
        (λ _ _.
          lift-then (IsClean w) (first_request requests) (resolve_requests reads catalog requests) w
            (λ _ _ _ _. refl)
            (λ first _. resolve_requests-IsClean reads catalog w requests first)) in
    sym (ap (λ p. p.1) h) ∙ clean e (ap (λ p. p.0) h)
