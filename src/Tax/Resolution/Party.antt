-- ===== src/Tax/Resolution/Party.antt =====
-- A line for which the marketplace is liable.
use alpha_shadow.Prelude.{◌≡◌, sym, ap, ◌∙◌, ok, ◌>>=◌}
use alpha_shadow.Tax.Rules.{marketplace}
use alpha_shadow.Tax.Liability.{TaxLineRequest, LiabilityReads, Liability, decide_liability}
use alpha_shadow.Tax.Resolution.{CatalogReads, marketplace_line, line_of, prepare_line}

prepare_line-decided :
    (catalog : CatalogReads) (reads : LiabilityReads) (request : TaxLineRequest)
    {liability : Liability}
    → decide_liability reads request ≡ ok liability
    → liability.context.liable_party ≡ marketplace
    → prepare_line catalog reads request ≡ marketplace_line liability
unfolding prepare_line
prepare_line-decided catalog reads request {liability} decided party =
    ap (λ r. r >>= λ l. line_of catalog l.context.liable_party l) decided
    ∙ ap (λ p. line_of catalog p liability) party

-- Where the marketplace is liable, a line is prepared without its item: the result is the same for
-- any assignments, categories, overrides, rates and confirmations.
pub prepare_line-marketplace :
    (one other : CatalogReads) (reads : LiabilityReads) (request : TaxLineRequest)
    {liability : Liability}
    → decide_liability reads request ≡ ok liability
    → liability.context.liable_party ≡ marketplace
    → prepare_line one reads request ≡ prepare_line other reads request
prepare_line-marketplace one other reads request decided party =
    prepare_line-decided one reads request decided party
    ∙ sym (prepare_line-decided other reads request decided party)
