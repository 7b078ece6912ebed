-- ===== src/Rbac/Authorization/Outcome.antt =====
-- The outcome computed from the grants: its cap is the widest that any of them gives.
use alpha_shadow.Prelude.{
  ◌≡◌, ◌≢◌, ◌↔◌, ◌⊎◌, inl, inr, refl, sym, ◌∙◌, Bool, true, false, not, ◌||◌, arith, if◌then◌else◌,
  Option, none, some, ℤ, ltb_ℤ, List, [], ◌∷◌, Any,
}
use alpha_shadow.Rbac.Authorization.{
  PermissionGrant, scan_cap, scan_grants, compute_outcome, over_cap,
}

-- A grant allows an amount: it has no cap, or one that the amount does not exceed.
abbrev pub Permits : ℤ → PermissionGrant → Type 0
Permits amount grant = over_cap (some amount) grant.max_amount_minor_units ≡ false

-- Whether the loop's variables allow the amount.
abbrev scan_allows : ℤ → Bool × Option ℤ → Bool
scan_allows amount (true, m) = true
scan_allows amount (false, none) = false
scan_allows amount (false, some c) = not (ltb_ℤ c amount)

abbrev grant_allows : ℤ → PermissionGrant → Bool
grant_allows amount grant = not (over_cap (some amount) grant.max_amount_minor_units)

abbrev any_allows : ℤ → List PermissionGrant → Bool
any_allows amount [] = false
any_allows amount (g ∷ gs) = grant_allows amount g || any_allows amount gs

scan_step :
    (amount : ℤ) (u : Bool) (m : Option ℤ) (limit : Option ℤ)
    → scan_allows amount (scan_cap u m limit)
      ≡ (scan_allows amount (u, m) || not (over_cap (some amount) limit))
scan_step amount u m limit = ground arith

scan_grants-allows :
    (amount : ℤ) (u : Bool) (m : Option ℤ) (gs : List PermissionGrant)
    → scan_allows amount (scan_grants u m gs) ≡ (scan_allows amount (u, m) || any_allows amount gs)
unfolding scan_grants
scan_grants-allows amount u m [] = ground arith
scan_grants-allows amount u m (g ∷ gs) =
    scan_grants-allows amount (scan_cap u m g.max_amount_minor_units).0
      (scan_cap u m g.max_amount_minor_units).1 gs
    ∙ rw (scan_step amount u m g.max_amount_minor_units) (ground arith)

any_allows-Any :
    (amount : ℤ) (gs : List PermissionGrant) → any_allows amount gs ≡ true → Any (Permits amount) gs
any_allows-Any amount [] h = cc
any_allows-Any amount (g ∷ gs) h = ground (arith, any_allows-Any amount gs)

Any-any_allows :
    (amount : ℤ) (gs : List PermissionGrant) → Any (Permits amount) gs → any_allows amount gs ≡ true
Any-any_allows amount (g ∷ gs) h = ground (arith, Any-any_allows amount gs)
Any-any_allows amount [] h = elim h [ ]

outcome_allows-scan :
    (amount : ℤ) (u : Bool) (m : Option ℤ)
    → (over_cap (some amount) (if u then none else m) ≡ false)
    → (u ≡ true) ⊎ (m ≢ none)
    → scan_allows amount (u, m) ≡ true
outcome_allows-scan amount u m h k = ground arith

scan-outcome_allows :
    (amount : ℤ) (u : Bool) (m : Option ℤ)
    → scan_allows amount (u, m) ≡ true
    → over_cap (some amount) (if u then none else m) ≡ false
scan-outcome_allows amount u m h = ground arith

scan_cap-some :
    (u : Bool) (m l : Option ℤ) → ((scan_cap u m l).0 ≡ true) ⊎ ((scan_cap u m l).1 ≢ none)
scan_cap-some u m none = inl refl
scan_cap-some u none (some c) = inr (λ e. cc)
scan_cap-some u (some o) (some c) = inr (λ e. cc)

-- After a grant the loop has seen something.
scan_grants-some :
    (u : Bool) (m : Option ℤ) (gs : List PermissionGrant)
    → (u ≡ true) ⊎ (m ≢ none)
    → ((scan_grants u m gs).0 ≡ true) ⊎ ((scan_grants u m gs).1 ≢ none)
unfolding scan_grants
scan_grants-some u m [] h = h
scan_grants-some u m (g ∷ gs) h =
    scan_grants-some (scan_cap u m g.max_amount_minor_units).0
      (scan_cap u m g.max_amount_minor_units).1 gs (scan_cap-some u m g.max_amount_minor_units)

-- The outcome allows an amount exactly when one of the grants does.
pub compute_outcome_iff :
    (amount : ℤ) (gs : List PermissionGrant)
    → (((compute_outcome gs).allowed ≡ true)
        × (over_cap (some amount) (compute_outcome gs).effective_max_amount_minor_units ≡ false))
      ↔ Any (Permits amount) gs
unfolding compute_outcome
compute_outcome_iff amount [] = ground arith
compute_outcome_iff amount (g ∷ gs) = (
  λ h. any_allows-Any amount (g ∷ gs) (
      sym (scan_grants-allows amount false none (g ∷ gs))
      ∙ outcome_allows-scan amount (scan_grants false none (g ∷ gs)).0
          (scan_grants false none (g ∷ gs)).1 h.1
          (scan_grants-some (scan_cap false none g.max_amount_minor_units).0
            (scan_cap false none g.max_amount_minor_units).1 gs
            (scan_cap-some false none g.max_amount_minor_units))),
  λ h. (
    refl,
    scan-outcome_allows amount (scan_grants false none (g ∷ gs)).0
        (scan_grants false none (g ∷ gs)).1
        (scan_grants-allows amount false none (g ∷ gs) ∙ Any-any_allows amount (g ∷ gs) h),
  ),
)

-- A permission is allowed at all exactly when there is a grant.
pub compute_outcome-allowed_iff :
    (gs : List PermissionGrant) → ((compute_outcome gs).allowed ≡ true) ↔ (gs ≢ [])
unfolding compute_outcome
compute_outcome-allowed_iff [] = (λ h. cc, λ h. absurd (h refl))
compute_outcome-allowed_iff (g ∷ gs) = (λ h e. cc, λ h. refl)
