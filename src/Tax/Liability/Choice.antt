-- ===== src/Tax/Liability/Choice.antt =====
-- Which liability rule is chosen.
use alpha_shadow.Prelude.{
  ◌≡◌, refl, ap, Bool, inl, inr, ◌⊎◌, Option, none, List, [], ◌∷◌, Text, ok, err-not-ok,
  ok-injective,
}
use alpha_shadow.Tax.Liability.{
  TaxLiabilityRule, same_platform, keep, the_rule, or_else, choose_liability_rule,
}

-- The only rule of a list with the property.
abbrev pub IsOnly : (TaxLiabilityRule → Bool) → List TaxLiabilityRule → TaxLiabilityRule → Type 0
IsOnly p rules rule = keep p rules ≡ rule ∷ []

the_rule-only :
    (rules : List TaxLiabilityRule) {rule : TaxLiabilityRule}
    → the_rule rules ≡ ok rule
    → rules ≡ rule ∷ []
the_rule-only [] h = absurd (err-not-ok h)
the_rule-only (r ∷ []) h = ap (λ x. x ∷ []) (ok-injective h)
the_rule-only (r ∷ s ∷ rest) h = absurd (err-not-ok h)

or_else-cases :
    (exact general : List TaxLiabilityRule) {rule : TaxLiabilityRule}
    → or_else exact general ≡ rule ∷ []
    → (exact ≡ rule ∷ []) ⊎ ((exact ≡ []) × (general ≡ rule ∷ []))
or_else-cases [] general h = inr (refl, h)
or_else-cases (r ∷ rest) general h = inl h

-- The rule that is chosen is the only one of the platform itself or, where the platform has none, the
-- only one of no platform.
choose_liability_rule-IsOnly :
    (rules : List TaxLiabilityRule) (platform : Option Text) {rule : TaxLiabilityRule}
    → choose_liability_rule rules platform ≡ ok rule
    → IsOnly (λ r. same_platform r.delivery_platform_id platform) rules rule
      ⊎ ((keep (λ r. same_platform r.delivery_platform_id platform) rules ≡ [])
          × IsOnly (λ r. same_platform r.delivery_platform_id none) rules rule)
unfolding choose_liability_rule
choose_liability_rule-IsOnly rules platform h =
    or_else-cases (keep (λ r. same_platform r.delivery_platform_id platform) rules)
      (keep (λ r. same_platform r.delivery_platform_id none) rules) (the_rule-only _ h)
