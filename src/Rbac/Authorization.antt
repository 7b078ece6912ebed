-- ===== src/Rbac/Authorization.antt =====
-- application/engines/rbac/authorization-engine.ts, with `sec_v` of domain/contracts/sec-v.ts.
-- The permission store is the parameter `PermissionReads`; `digest` is the injected hash of the
-- JSON text of the sorted roles and the security version.
pub mod Outcome
pub mod Checks
pub mod Coherence
use alpha_shadow.Prelude.{
  ℕ, Bool, true, false, not, ◌&&◌, ◌||◌, ◌≡◌, ◌↔◌, arith, if◌then◌else◌, Option, none, some, ℤ,
  ltb_ℤ, List, [], ◌∷◌, Eq, ◌===◌, Text, text_eq, text_beq_iff, text_ltb, Result, ok, err, ◌>>=◌,
  ◌>>◌, guard, forbidden, authorization,
}
use alpha_shadow.Prelude.Sort.{sort}
use alpha_shadow.Rbac.L1Cache.{PermissionCheckOutcome, L1PermissionCache, cache_get, cache_set}

pub data ScopeType : Type 0 where
  tenant branch : ScopeType

pub record ActiveUserRole : Type 0 where
  pub role_id : Text
  pub role_version : ℕ
  pub scope_type : ScopeType
  pub scope_id : Option Text

pub record PermissionGrant : Type 0 where
  pub role_id : Text
  pub role_version : ℕ
  pub scope_type : ScopeType
  pub scope_id : Option Text
  pub max_amount_minor_units : Option ℤ
  pub is_sensitive : Bool

-- `compareScopeId` is negative.
unfoldable pub scope_before : Option Text → Option Text → Bool
scope_before none none = false
scope_before none (some b) = true
scope_before (some a) none = false
scope_before (some a) (some b) = text_ltb a b

-- `compareTuples` is negative.
unfoldable pub tuple_before : ActiveUserRole → ActiveUserRole → Bool
unfolding scope_before
tuple_before a b =
    if text_ltb a.role_id b.role_id
    then true
    else if text_ltb b.role_id a.role_id
    then false
    else scope_before a.scope_id b.scope_id

-- The value whose JSON text is hashed.
pub record SecVPayload : Type 0 where
  pub roles : List ActiveUserRole
  pub security_version : ℕ

unfoldable pub sec_v_payload : List ActiveUserRole → ℕ → SecVPayload
unfolding tuple_before
sec_v_payload roles version = record { roles = sort tuple_before roles; security_version = version }

-- The two cases of the context; the amount of a resource is optional.
pub data Resource : Type 0 where
  no_resource : Resource
  resource : Text → Option ℤ → Resource

pub record AbacContext : Type 0 where
  pub actor_branch_id : Option Text
  pub resource_of : Resource
  pub is_sensitive_permission : Bool

pub record CheckPermissionInput : Type 0 where
  pub tenant_id : Text
  pub user_id : Text
  pub permission_key : Text
  pub context : AbacContext
  pub token_sec_v : Option Text

-- What the engine reads of `IPermissionReadRepository`, and the hash.
pub record PermissionReads : Type 0 where
  pub is_user_active : Text → Text → Bool
  pub list_active_user_roles : Text → Text → List ActiveUserRole
  pub get_security_version : Text → Text → ℕ
  pub get_applicable_grants : Text → Text → Text → Option Text → List PermissionGrant
  pub digest : SecVPayload → Text

-- The array whose JSON text is the key of the cache.
pub record CacheKey : Type 0 where
  pub tenant_id : Text
  pub user_id : Text
  pub permission_key : Text
  pub has_resource : Bool
  pub relevant_branch : Option Text

abbrev pub bool_beq : Bool → Bool → Bool
bool_beq true b = b
bool_beq false b = not b

abbrev pub option_beq : Option Text → Option Text → Bool
option_beq none none = true
option_beq (some a) (some b) = a === b
option_beq _ _ = false

-- Two such arrays have the same JSON text exactly when they are equal.
unfoldable pub key_beq : CacheKey → CacheKey → Bool
key_beq a b =
    (a.tenant_id === b.tenant_id)
    && (a.user_id === b.user_id)
    && (a.permission_key === b.permission_key)
    && bool_beq a.has_resource b.has_resource
    && option_beq a.relevant_branch b.relevant_branch

pub option_beq_iff : (a b : Option Text) → (option_beq a b ≡ true) ↔ (a ≡ b)
option_beq_iff none none = ground arith
option_beq_iff (some a) none = ground arith
option_beq_iff none (some b) = ground arith
option_beq_iff (some a) (some b) = ground (arith, text_beq_iff a b)

pub bool_beq_iff : (a b : Bool) → (bool_beq a b ≡ true) ↔ (a ≡ b)
bool_beq_iff a b = ground arith

pub key_beq_iff : (a b : CacheKey) → (key_beq a b ≡ true) ↔ (a ≡ b)
unfolding key_beq
key_beq_iff a b = ground (
  arith,
  text_beq_iff a.tenant_id b.tenant_id,
  text_beq_iff a.user_id b.user_id,
  text_beq_iff a.permission_key b.permission_key,
  bool_beq_iff a.has_resource b.has_resource,
  option_beq_iff a.relevant_branch b.relevant_branch,
)

instance abbrev pub key_eq : Eq CacheKey
key_eq = record { beq = key_beq; beq_iff = key_beq_iff }

abbrev pub larger_cap : Option ℤ → ℤ → Option ℤ
larger_cap none cap = some cap
larger_cap (some old) cap = some (if ltb_ℤ old cap then cap else old)

-- One round of that loop.
abbrev pub scan_cap : Bool → Option ℤ → Option ℤ → Bool × Option ℤ
scan_cap any_uncapped max_capped none = (true, max_capped)
scan_cap any_uncapped max_capped (some cap) = (any_uncapped, larger_cap max_capped cap)

-- The loop of `computeOutcome`: whether a grant has no cap, and the largest cap.
unfoldable pub scan_grants : Bool → Option ℤ → List PermissionGrant → Bool × Option ℤ
scan_grants any_uncapped max_capped [] = (any_uncapped, max_capped)
scan_grants any_uncapped max_capped (grant ∷ rest) =
    let (u, m) = scan_cap any_uncapped max_capped grant.max_amount_minor_units in
    scan_grants u m rest

unfoldable pub compute_outcome : List PermissionGrant → PermissionCheckOutcome
unfolding scan_grants
compute_outcome [] = record { allowed = false; effective_max_amount_minor_units = none }
compute_outcome (grant ∷ rest) =
    let (any_uncapped, max_capped) = scan_grants false none (grant ∷ rest) in
    record {
      allowed = true;
      effective_max_amount_minor_units = if any_uncapped then none else max_capped;
    }

abbrev pub has_resource : Resource → Bool
has_resource no_resource = false
has_resource (resource b a) = true

abbrev pub relevant_branch : Option Text → Resource → Option Text
relevant_branch actor no_resource = actor
relevant_branch actor (resource b a) = some b

abbrev pub cache_key : CheckPermissionInput → CacheKey
cache_key input = record {
  tenant_id = input.tenant_id;
  user_id = input.user_id;
  permission_key = input.permission_key;
  has_resource = has_resource input.context.resource_of;
  relevant_branch = relevant_branch input.context.actor_branch_id input.context.resource_of;
}

abbrev pub token_guard : Option Text → Text → Result (Unit {0})
token_guard none derived = ok tt
token_guard (some token) derived = guard (derived === token) authorization

-- `context.resourceAmountMinorUnits > outcome.effectiveMaxAmountMinorUnits`, where both are there.
abbrev pub over_cap : Option ℤ → Option ℤ → Bool
over_cap (some amount) (some cap) = ltb_ℤ cap amount
over_cap _ _ = false

-- Stage 3, with the cap of the outcome.
unfoldable pub abac : Option Text → Resource → Option ℤ → Result (Unit {0})
abac actor no_resource limit = ok tt
abac actor (resource place amount) limit = do
  guard (option_beq actor (some place)) forbidden
  guard (not (over_cap amount limit)) forbidden

module _ (reads : PermissionReads) where
  open reads use {
    is_user_active, list_active_user_roles, get_security_version, get_applicable_grants, digest,
  }

  unfoldable pub derive_sec_v : List ActiveUserRole → ℕ → Text
  derive_sec_v roles version = digest (sec_v_payload roles version)

  -- The outcome read afresh from the store, for the key's tenant, user, permission and branch.
  unfoldable pub fresh_outcome : CacheKey → PermissionCheckOutcome
  fresh_outcome k =
      compute_outcome
        (get_applicable_grants k.tenant_id k.user_id k.permission_key k.relevant_branch)

  -- A hit returns what the cache held; a miss reads the store and fills the cache.
  unfoldable pub after_lookup :
      CacheKey
      → ℕ
      → Option PermissionCheckOutcome × L1PermissionCache CacheKey
      → PermissionCheckOutcome × L1PermissionCache CacheKey
  after_lookup key now (some cached, cache) = (cached, cache)
  after_lookup key now (none, cache) =
      (fresh_outcome key, cache_set key (fresh_outcome key) now cache)

  abbrev pub CacheState : Type 0
  CacheState = Option (L1PermissionCache CacheKey)

  -- `permissionCheck` on a permission that is sensitive or not.
  unfoldable pub permission_check :
      Bool → CacheKey → ℕ → CacheState → PermissionCheckOutcome × CacheState
  permission_check true key now cache = (fresh_outcome key, cache)
  permission_check false key now none = (fresh_outcome key, none)
  permission_check false key now (some cache) =
      let (outcome, cache') = after_lookup key now (cache_get key now cache) in
      (outcome, some cache')

  -- Stage 1: an active member, and a token, if one is presented, of the current roles.
  unfoldable pub tenant_guard : CheckPermissionInput → Result (Unit {0})
  tenant_guard input = do
    guard (is_user_active input.tenant_id input.user_id) forbidden
    token_guard input.token_sec_v (
        derive_sec_v (list_active_user_roles input.tenant_id input.user_id)
          (get_security_version input.tenant_id input.user_id))

  -- Stages 2 and 3, on the outcome of the permission check.
  unfoldable pub decide : CheckPermissionInput → PermissionCheckOutcome → Result (Option ℤ)
  decide input outcome = do
    guard outcome.allowed forbidden
    abac input.context.actor_branch_id input.context.resource_of
        outcome.effective_max_amount_minor_units
    ok outcome.effective_max_amount_minor_units

  -- What follows the tenant guard. The cache may change although the check fails.
  unfoldable pub after_guard :
      CheckPermissionInput → ℕ → CacheState → Result (Unit {0}) → Result (Option ℤ) × CacheState
  after_guard input now cache (err e) = (err e, cache)
  after_guard input now cache (ok _) =
      let (outcome, cache') =
        permission_check input.context.is_sensitive_permission (cache_key input) now cache in
      (decide input outcome, cache')

  -- `check`: the effective cap of an allowed call, or the error, with the cache that it leaves.
  unfoldable pub check : CheckPermissionInput → ℕ → CacheState → Result (Option ℤ) × CacheState
  check input now cache = after_guard input now cache (tenant_guard input)
