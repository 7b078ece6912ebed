-- ===== src/Tax/Snapshots/Writes.antt =====
-- What the resolution of a line of its own has written when it succeeds.
use alpha_shadow.Prelude.{
  ◌≡◌, sym, ap, true, map, some, List, [], ◌∷◌, Text, text_eq, text_beq_iff, ok, guard, guard-eq-ok,
  ok-injective, tenant_isolation_violation, invoice_tax_batch_required, tax_configuration,
}
use alpha_shadow.Prelude.Assoc.{get}
use alpha_shadow.Prelude.Transactions.{some_or, some_or-eq-ok, lift-then-ok}
use alpha_shadow.Tax.Rules.{per_line, ResolvedTaxLine}
use alpha_shadow.Tax.Cascading.{calculate_cascading_taxes}
use alpha_shadow.Tax.Liability.{TaxLineRequest, LiabilityReads}
use alpha_shadow.Tax.Resolution.{
  CatalogReads, PreparedTaxes, external, computation, PreparedLine, prepare_line,
}
use alpha_shadow.Tax.Snapshots.{
  TaxResolution, marker, tax_lines, TaxWrite, insert_context, insert_snapshots, lower,
  assert_tenant_scope, is_per_line, resolve_prepared, resolve_line, persist_rows, resolve_scoped,
  resolve_and_snapshot,
}

-- What a prepared line becomes and what is written for it: its marker and the context, or the taxes
-- that its strategy per line calculates, with the context and then their rows.
abbrev pub IsResolved :
    PreparedLine → PreparedTaxes → TaxResolution → List TaxWrite → List TaxWrite → Type 0
IsResolved line (external m) resolution w w' =
    (resolution ≡ marker m) × (w' ≡ insert_context line.context ∷ w)
IsResolved line (computation plan) resolution w w' =
    (is_per_line line.context.rounding_strategy ≡ true)
    × (rows : List (Text × List ResolvedTaxLine)) × (own : List ResolvedTaxLine)
    × (calculate_cascading_taxes (plan ∷ []) per_line ≡ ok rows)
    × (get line.context.request.order_line_id rows ≡ some own)
    × (resolution ≡ tax_lines own)
    × (w'
        ≡ insert_snapshots line.context.request.order_line_id line.context.request.currency_code own
          ∷ insert_context line.context
          ∷ w)

module _ (reads : LiabilityReads) (catalog : CatalogReads) (own : Text) where
  resolve_prepared-eq-ok :
      (line : PreparedLine) (taxes : PreparedTaxes) (w : List TaxWrite) {resolution : TaxResolution}
      {w' : List TaxWrite}
      → resolve_prepared reads catalog own line taxes w ≡ (ok resolution, w')
      → IsResolved line taxes resolution w w'
  resolve_prepared-eq-ok line (external m) w h =
      (sym (ok-injective (ap (λ p. p.0) h)), sym (ap (λ p. p.1) h))
  resolve_prepared-eq-ok line (computation plan) w h =
      let (_, each, h1) =
        lift-then-ok (guard (is_per_line line.context.rounding_strategy) invoice_tax_batch_required)
          _ h in
      let (rows, calculated, h2) =
        lift-then-ok (calculate_cascading_taxes (plan ∷ []) per_line)
          (persist_rows reads catalog own line) h1 in
      let (found, is_found, h3) =
        lift-then-ok (some_or tax_configuration (get line.context.request.order_line_id rows)) _
          h2 in
      (
        guard-eq-ok _ invoice_tax_batch_required each,
        rows,
        found,
        calculated,
        some_or-eq-ok tax_configuration _ is_found,
        sym (ok-injective (ap (λ p. p.0) h3)),
        sym (ap (λ p. p.1) h3),
      )

-- A resolution of a line that succeeds was asked for by the engine's own tenant, up to the case of
-- its id; the line was prepared; for the marketplace the resolution is the line's marker and exactly
-- its context has been written; for the restaurant the strategy is per line, the resolution is the
-- rows that the calculation per line gives the line, and exactly the context and then these rows
-- have been written.
pub resolve_and_snapshot-eq-ok :
    (reads : LiabilityReads) (catalog : CatalogReads) (own tenant : Text) (request : TaxLineRequest)
    (w : List TaxWrite) {resolution : TaxResolution} {w' : List TaxWrite}
    → resolve_and_snapshot reads catalog own tenant request w ≡ (ok resolution, w')
    → (map lower own ≡ map lower tenant)
      × (line : PreparedLine) × (prepare_line catalog reads request ≡ ok line)
      × IsResolved line line.taxes resolution w w'
unfolding resolve_and_snapshot assert_tenant_scope
resolve_and_snapshot-eq-ok reads catalog own tenant request w h =
    let (u, scoped, h1) =
      lift-then-ok (assert_tenant_scope own tenant) (resolve_scoped reads catalog own request) h in
    let (line, prepared, h2) =
      lift-then-ok (prepare_line catalog reads request) (resolve_line reads catalog own) h1 in
    (
      (text_beq_iff (map lower own) (map lower tenant)).0
          (guard-eq-ok _ tenant_isolation_violation scoped),
      line,
      prepared,
      resolve_prepared-eq-ok reads catalog own line line.taxes w h2,
    )
