-- ===== src/Tax/Snapshots.antt =====
-- application/engines/tax/tax-resolution-engine.ts: `resolveAndSnapshot` and
-- the rows that it writes. Tenant ids are ASCII, and the
-- inserts do not fail.
pub mod Writes
use alpha_shadow.Prelude.{
  ℕ, ◌+◌, Bool, true, false, not, ◌&&◌, leb, ◌==◌, all, map, if◌then◌else◌, Option, none, some,
  List, [], ◌∷◌, ◌++◌, Text, text_eq, ◌===◌, Error, Result, ok, err, guard, validation,
  tax_configuration, tenant_isolation_violation, invoice_tax_batch_required,
}
use alpha_shadow.Prelude.Assoc.{get, put}
use alpha_shadow.Prelude.Transactions.{Tx, and_then, ◌>>=◌, ◌>>◌, lift, write, some_or}
use alpha_shadow.Tax.Rules.{TaxRoundingStrategy, per_line, invoice_total, ResolvedTaxLine}
use alpha_shadow.Tax.Cascading.{TaxComputationPlan, calculate_cascading_taxes}
use alpha_shadow.Tax.Liability.{TaxLineRequest, OrderLineTaxContext, LiabilityReads, same_platform}
use alpha_shadow.Tax.Resolution.{
  CatalogReads, ExternalTaxLiabilityMarker, PreparedTaxes, external, computation, PreparedLine,
  prepare_line,
}

pub data TaxResolution : Type 0 where
  marker : ExternalTaxLiabilityMarker → TaxResolution
  tax_lines : List ResolvedTaxLine → TaxResolution

pub data TaxWrite : Type 0 where
  insert_context : OrderLineTaxContext → TaxWrite
  insert_snapshots : Text → Text → List ResolvedTaxLine → TaxWrite

-- `persistPrepared`: the context, and the rows of a line that the restaurant is liable for.
abbrev pub persisted : OrderLineTaxContext → TaxResolution → List TaxWrite → List TaxWrite
persisted context (marker m) w = insert_context context ∷ w
persisted context (tax_lines rows) w =
    insert_snapshots context.request.order_line_id context.request.currency_code rows
    ∷ insert_context context
    ∷ w

abbrev pub lower : ℕ → ℕ
lower c = if leb 65 c && leb c 90 then c + 32 else c

-- `assertTenantScope`.
unfoldable pub assert_tenant_scope : Text → Text → Result (Unit {0})
assert_tenant_scope own tenant =
    guard (map lower own === map lower tenant) tenant_isolation_violation

abbrev pub is_per_line : TaxRoundingStrategy → Bool
is_per_line per_line = true
is_per_line invoice_total = false

module _ (reads : LiabilityReads) (catalog : CatalogReads) (own_tenant : Text) where
  abbrev pub persist : OrderLineTaxContext → TaxResolution → Tx TaxWrite TaxResolution
  persist context resolution = λ w. (ok resolution, persisted context resolution w)

  abbrev pub persist_rows :
      PreparedLine → List (Text × List ResolvedTaxLine) → Tx TaxWrite TaxResolution
  persist_rows line calculated = do
    rows ← lift (some_or tax_configuration (get line.context.request.order_line_id calculated))
    persist line.context (tax_lines rows)

  -- A line of its own is calculated with the strategy per line.
  abbrev pub resolve_plan : PreparedLine → TaxComputationPlan → Tx TaxWrite TaxResolution
  resolve_plan line plan = do
    lift (guard (is_per_line line.context.rounding_strategy) invoice_tax_batch_required)
    calculated ← lift (calculate_cascading_taxes (plan ∷ []) per_line)
    persist_rows line calculated

  abbrev pub resolve_prepared : PreparedLine → PreparedTaxes → Tx TaxWrite TaxResolution
  resolve_prepared line (external m) = persist line.context (marker m)
  resolve_prepared line (computation plan) = resolve_plan line plan

  abbrev pub resolve_line : PreparedLine → Tx TaxWrite TaxResolution
  resolve_line line = resolve_prepared line line.taxes

  abbrev pub resolve_scoped : TaxLineRequest → Unit {0} → Tx TaxWrite TaxResolution
  resolve_scoped request u = do line ← lift (prepare_line catalog reads request); resolve_line line

  unfoldable pub resolve_and_snapshot : Text → TaxLineRequest → Tx TaxWrite TaxResolution
  resolve_and_snapshot tenant request = do
    u ← lift (assert_tenant_scope own_tenant tenant)
    resolve_scoped request u
