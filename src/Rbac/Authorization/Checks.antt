-- ===== src/Rbac/Authorization/Checks.antt =====
-- What an allowed check means, and when the cache is touched.
use alpha_shadow.Prelude.{
  ℕ, ◌≡◌, ◌≢◌, ◌↔◌, refl, sym, ap, ◌∙◌, Bool, true, false, arith, Option, none, some, ℤ, List, [],
  Any, Text, text_beq_iff, text_eq, Result, ok, err, ◌>>=◌, ◌>>◌, guard, forbidden, >>=-eq-ok,
}
use alpha_shadow.Rbac.L1Cache.{PermissionCheckOutcome}
use alpha_shadow.Rbac.Authorization.{
  PermissionGrant, Resource, no_resource, resource, CacheKey, CheckPermissionInput, PermissionReads,
  option_beq_iff, cache_key, compute_outcome, abac, token_guard, derive_sec_v, fresh_outcome,
  permission_check, tenant_guard, decide, after_guard, check, CacheState, relevant_branch,
}
use alpha_shadow.Rbac.Authorization.Outcome.{
  Permits, compute_outcome_iff, compute_outcome-allowed_iff,
}

-- The grants cover the call: at the branch of its resource, and for its amount if it has one.
abbrev pub IsGranted : Option Text → Resource → List PermissionGrant → Type 0
IsGranted actor no_resource grants = grants ≢ []
IsGranted actor (resource place none) grants = (actor ≡ some place) × (grants ≢ [])
IsGranted actor (resource place (some amount)) grants =
    (actor ≡ some place) × Any (Permits amount) grants

abbrev pub TokenIsCurrent : Option Text → Text → Type 0
TokenIsCurrent none derived = Unit
TokenIsCurrent (some token) derived = derived ≡ token

-- The code of `decide`, with the context taken apart.
abbrev pub decide_on : Option Text → Resource → PermissionCheckOutcome → Result (Option ℤ)
decide_on actor place outcome = do
  guard outcome.allowed forbidden
  abac actor place outcome.effective_max_amount_minor_units
  ok outcome.effective_max_amount_minor_units

decide_on-IsGranted :
    (actor : Option Text) (place : Resource) (grants : List PermissionGrant) (limit : Option ℤ)
    → decide_on actor place (compute_outcome grants) ≡ ok limit
    → IsGranted actor place grants
unfolding abac
decide_on-IsGranted actor no_resource grants limit h =
    (compute_outcome-allowed_iff grants).0 (ground arith)
decide_on-IsGranted actor (resource place none) grants limit h = (
  (option_beq_iff actor (some place)).0 (ground arith),
  (compute_outcome-allowed_iff grants).0 (ground arith),
)
decide_on-IsGranted actor (resource place (some amount)) grants limit h = (
  (option_beq_iff actor (some place)).0 (ground arith),
  (compute_outcome_iff amount grants).0 (ground arith, ground arith),
)

granted-decide_on :
    (actor : Option Text) (place : Resource) (grants : List PermissionGrant)
    → IsGranted actor place grants
    → decide_on actor place (compute_outcome grants)
      ≡ ok (compute_outcome grants).effective_max_amount_minor_units
unfolding abac
granted-decide_on actor no_resource grants h = rw ((compute_outcome-allowed_iff grants).1 h)
granted-decide_on actor (resource place none) grants (same, h) =
    rw ((compute_outcome-allowed_iff grants).1 h)
      (rw ((option_beq_iff actor (some place)).1 same) refl)
granted-decide_on actor (resource place (some amount)) grants (same, h) =
    let (allowed, within) = (compute_outcome_iff amount grants).1 h in
    rw allowed (rw ((option_beq_iff actor (some place)).1 same) (rw within))

module _ (reads : PermissionReads) where
  -- The grants that the store gives for the call.
  abbrev pub grants_of : CheckPermissionInput → List PermissionGrant
  grants_of input =
      reads.get_applicable_grants input.tenant_id input.user_id input.permission_key
        (relevant_branch input.context.actor_branch_id input.context.resource_of)

  -- What the three stages demand of a call.
  pub record IsAuthorized (input : CheckPermissionInput) : Type 0 where
    pub active : reads.is_user_active input.tenant_id input.user_id ≡ true
    pub current : TokenIsCurrent input.token_sec_v (
        derive_sec_v reads
          (reads.list_active_user_roles input.tenant_id input.user_id)
          (reads.get_security_version input.tenant_id input.user_id))
    pub granted :
        IsGranted input.context.actor_branch_id input.context.resource_of (grants_of input)

  token_guard_iff :
      (token : Option Text) (derived : Text)
      → (token_guard token derived ≡ ok tt) ↔ TokenIsCurrent token derived
  token_guard_iff none derived = (λ h. tt, λ h. refl)
  token_guard_iff (some token) derived = (
    (λ h. (text_beq_iff derived token).0 (ground arith)),
    (λ h. rw ((text_beq_iff derived token).1 h)),
  )

  tenant_guard-eq-ok :
      (input : CheckPermissionInput) {u : Unit {0}}
      → tenant_guard reads input ≡ ok u
      → (reads.is_user_active input.tenant_id input.user_id ≡ true)
        × TokenIsCurrent input.token_sec_v (
            derive_sec_v reads
              (reads.list_active_user_roles input.tenant_id input.user_id)
              (reads.get_security_version input.tenant_id input.user_id))
  unfolding tenant_guard
  tenant_guard-eq-ok input {u = tt} h =
      let (_, active, token) =
        >>=-eq-ok (guard (reads.is_user_active input.tenant_id input.user_id) forbidden) _ h in
      (ground (arith, active), (token_guard_iff input.token_sec_v _).0 token)

  tenant_guard_passes :
      (input : CheckPermissionInput) → IsAuthorized input → tenant_guard reads input ≡ ok tt
  unfolding tenant_guard
  tenant_guard_passes input a = rw a.active ((token_guard_iff input.token_sec_v _).1 a.current)

  permission_check-none :
      (sensitive : Bool) (input : CheckPermissionInput) (now : ℕ)
      → permission_check reads sensitive (cache_key input) now none
        ≡ (fresh_outcome reads (cache_key input), none)
  unfolding permission_check
  permission_check-none true input now = refl
  permission_check-none false input now = refl

  -- Without a cache a check is the tenant guard and the decision on the fresh outcome.
  abbrev pub fresh_check : CheckPermissionInput → Result (Option ℤ)
  fresh_check input =
      tenant_guard reads input >>= λ _. decide reads input (fresh_outcome reads (cache_key input))

  after_guard-none :
      (input : CheckPermissionInput) (now : ℕ) (g : Result (Unit {0}))
      → after_guard reads input now none g
        ≡ ((g >>= λ _. decide reads input (fresh_outcome reads (cache_key input))), none)
  unfolding after_guard
  after_guard-none input now (err e) = refl
  after_guard-none input now (ok u) =
      rw (permission_check-none input.context.is_sensitive_permission input now)

  pub check-none :
      (input : CheckPermissionInput) (now : ℕ)
      → check reads input now none ≡ (fresh_check input, none)
  unfolding check
  check-none input now = after_guard-none input now (tenant_guard reads input)

  permission_check-sensitive :
      (sensitive : Bool) (key : CacheKey) (now : ℕ) (cache : CacheState reads)
      → sensitive ≡ true
      → permission_check reads sensitive key now cache ≡ (fresh_outcome reads key, cache)
  unfolding permission_check
  permission_check-sensitive true key now cache h = refl
  permission_check-sensitive false key now cache h = ground arith

  after_guard-sensitive :
      (input : CheckPermissionInput) (now : ℕ) (cache : CacheState reads) (g : Result (Unit {0}))
      → input.context.is_sensitive_permission ≡ true
      → after_guard reads input now cache g
        ≡ ((g >>= λ _. decide reads input (fresh_outcome reads (cache_key input))), cache)
  unfolding after_guard
  after_guard-sensitive input now cache (err e) h = refl
  after_guard-sensitive input now cache (ok u) h = rw (
      permission_check-sensitive input.context.is_sensitive_permission (cache_key input) now cache
        h)

  -- A check of a sensitive permission reads the store afresh and leaves the cache as it was, whatever
  -- the cache holds.
  pub check-sensitive :
      (input : CheckPermissionInput) (now : ℕ) (cache : CacheState reads)
      → input.context.is_sensitive_permission ≡ true
      → check reads input now cache ≡ ((check reads input now none).0, cache)
  unfolding check
  check-sensitive input now cache h =
      after_guard-sensitive input now cache (tenant_guard reads input) h
      ∙ ap (λ x. (x, cache))
          (sym (ap (λ x. x.0) (after_guard-none input now (tenant_guard reads input))))

  fresh_check-IsAuthorized :
      (input : CheckPermissionInput) {limit : Option ℤ}
      → fresh_check input ≡ ok limit
      → IsAuthorized input
  unfolding decide fresh_outcome
  fresh_check-IsAuthorized input {limit} h =
      let (_, guarded, decided) = >>=-eq-ok (tenant_guard reads input) _ h in
      let (active, current) = tenant_guard-eq-ok input guarded in
      record {
        active = active;
        current = current;
        granted =
            decide_on-IsGranted input.context.actor_branch_id input.context.resource_of
              (grants_of input) limit decided;
      }

  authorized-fresh_check :
      (input : CheckPermissionInput)
      → IsAuthorized input
      → (limit : Option ℤ) × (fresh_check input ≡ ok limit)
  unfolding decide fresh_outcome
  authorized-fresh_check input a = (
    (compute_outcome (grants_of input)).effective_max_amount_minor_units,
    rw (tenant_guard_passes input a) (
        granted-decide_on input.context.actor_branch_id input.context.resource_of (grants_of input)
          a.granted),
  )

  -- A check without a cache is allowed exactly when the user is an active member, a presented token
  -- is that of the current roles, and the grants cover the call at its branch and for its amount.
  pub check_iff :
      (input : CheckPermissionInput) (now : ℕ)
      → ((limit : Option ℤ) × ((check reads input now none).0 ≡ ok limit)) ↔ IsAuthorized input
  check_iff input now =
      let e = ap (λ x. x.0) (check-none input now) in
      (
        (λ (limit, h). fresh_check-IsAuthorized input (sym e ∙ h)),
        (λ a. let (limit, h) = authorized-fresh_check input a in (limit, e ∙ h)),
      )
