-- ===== src/Tax/Invoices.antt =====
-- application/engines/tax/tax-resolution-engine.ts: `resolveInvoiceAndSnapshot`, the tax of the lines
-- of one invoice.
pub mod Errors
use alpha_shadow.Prelude.{
  Bool, true, false, not, ◌&&◌, ◌==◌, all, if◌then◌else◌, Option, none, some, List, [], ◌∷◌, Text,
  text_eq, ◌===◌, Error, Result, ok, err, guard, validation, tax_configuration,
}
use alpha_shadow.Prelude.Assoc.{get, put}
use alpha_shadow.Prelude.Transactions.{Tx, and_then, ◌>>=◌, ◌>>◌, lift, some_or}
use alpha_shadow.Tax.Rules.{TaxRoundingStrategy, ResolvedTaxLine}
use alpha_shadow.Tax.Cascading.{TaxComputationPlan, calculate_cascading_taxes}
use alpha_shadow.Tax.Liability.{TaxLineRequest, LiabilityReads, same_flag, same_platform}
use alpha_shadow.Tax.Resolution.{
  CatalogReads, PreparedTaxes, external, computation, PreparedLine, prepare_line,
}
use alpha_shadow.Tax.Snapshots.{
  TaxResolution, marker, tax_lines, TaxWrite, persisted, assert_tenant_scope, is_per_line,
}

abbrev pub distinct_lines : List TaxLineRequest → Bool
distinct_lines [] = true
distinct_lines (r ∷ rest) =
    all (λ s. not (r.order_line_id === s.order_line_id)) rest && distinct_lines rest

abbrev pub same_invoice : TaxLineRequest → TaxLineRequest → Bool
same_invoice first r =
    (r.branch_id === first.branch_id)
    && (r.currency_code === first.currency_code)
    && (r.sales_channel === first.sales_channel)
    && same_platform r.delivery_platform_id first.delivery_platform_id
    && (r.time == first.time)

abbrev pub first_request : List TaxLineRequest → Result TaxLineRequest
first_request [] = err validation
first_request (r ∷ rest) = ok r

abbrev pub first_strategy : List PreparedLine → Result TaxRoundingStrategy
first_strategy [] = err tax_configuration
first_strategy (line ∷ rest) = ok line.context.rounding_strategy

abbrev pub has_strategy : TaxRoundingStrategy → PreparedLine → Bool
has_strategy strategy line =
    same_flag (is_per_line line.context.rounding_strategy) (is_per_line strategy)

abbrev pub plans_with : PreparedTaxes → List TaxComputationPlan → List TaxComputationPlan
plans_with (external m) plans = plans
plans_with (computation plan) plans = plan ∷ plans

-- The computations of the lines that have one.
abbrev pub plans_of : List PreparedLine → List TaxComputationPlan
plans_of [] = []
plans_of (line ∷ rest) = plans_with line.taxes (plans_of rest)

-- The marker of a line, or the rows that were calculated for it.
abbrev pub resolution_of :
    List (Text × List ResolvedTaxLine) → Text → PreparedTaxes → Option TaxResolution
resolution_of calculated id (external m) = some (marker m)
resolution_of calculated id (computation plan) = rows_of (get id calculated)
  where
    rows_of : Option (List ResolvedTaxLine) → Option TaxResolution
    rows_of none = none
    rows_of (some rows) = some (tax_lines rows)

-- The results of the lines, in insertion order.
abbrev pub Resolutions : Type 0
Resolutions = List (Text × TaxResolution)

-- Each line is written, and its result set, before the next one.
abbrev pub persist_lines :
    List (Text × List ResolvedTaxLine) → List PreparedLine → Resolutions → Tx TaxWrite Resolutions
persist_lines calculated [] result = lift (ok result)
persist_lines calculated (line ∷ rest) result =
    let id : Text = line.context.request.order_line_id in
    lift (some_or tax_configuration (resolution_of calculated id line.taxes)) >>= λ resolution w.
    persist_lines calculated rest (put id resolution result) (persisted line.context resolution w)

abbrev pub with_line : Result PreparedLine → Result (List PreparedLine) → Result (List PreparedLine)
with_line (ok line) (ok later) = ok (line ∷ later)
with_line (ok line) (err e) = err e
with_line (err e) later = err e

module _ (reads : LiabilityReads) (catalog : CatalogReads) where
  -- The lines are prepared in order, up to the first error.
  abbrev pub prepare_lines : List TaxLineRequest → Result (List PreparedLine)
  prepare_lines [] = ok []
  prepare_lines (request ∷ rest) =
      with_line (prepare_line catalog reads request) (prepare_lines rest)

  abbrev pub persist_prepared : List PreparedLine → TaxRoundingStrategy → Tx TaxWrite Resolutions
  persist_prepared lines strategy = do
    lift (guard (all (has_strategy strategy) lines) tax_configuration)
    calculated ← lift (calculate_cascading_taxes (plans_of lines) strategy)
    persist_lines calculated lines []

  abbrev pub resolve_lines : List PreparedLine → Tx TaxWrite Resolutions
  resolve_lines lines = do strategy ← lift (first_strategy lines); persist_prepared lines strategy

  abbrev pub resolve_requests : List TaxLineRequest → TaxLineRequest → Tx TaxWrite Resolutions
  resolve_requests requests first = do
    lift (guard (distinct_lines requests) validation)
    lift (guard (all (same_invoice first) requests) validation)
    lines ← lift (prepare_lines requests)
    resolve_lines lines

  unfoldable pub resolve_invoice : Text → Text → List TaxLineRequest → Tx TaxWrite Resolutions
  resolve_invoice own_tenant tenant requests = do
    lift (assert_tenant_scope own_tenant tenant)
    first ← lift (first_request requests)
    resolve_requests requests first
