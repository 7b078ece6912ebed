-- ===== src/Examples/RbacCases.antt =====
-- Authorization checks and the cache at concrete roles.
use alpha_shadow.Prelude.{
  ◌-◌, ◌≡◌, ◌↔◌, refl, true, false, Any, leb, length, arith, if◌then◌else◌, Option, none, some, ℤ,
  pos, List, [], ◌∷◌, ◌++◌, Text, text_eq, codes, ok,
}
use alpha_shadow.Rbac.L1Cache.{
  PermissionCheckOutcome, CacheNode, L1PermissionCache, cache_get, cache_set,
}
use alpha_shadow.Rbac.L1Cache.Laws.{size, renewed, cache_set_lem, cache_get-set}
use alpha_shadow.Rbac.Authorization.{
  tenant, PermissionGrant, resource, CheckPermissionInput, PermissionReads, over_cap,
  compute_outcome, scan_grants, fresh_outcome, cache_key, check, CacheState,
}
use alpha_shadow.Rbac.Authorization.Outcome.{Permits, compute_outcome_iff}
use alpha_shadow.Rbac.Authorization.Coherence.{IsCoherent, check-IsCoherent}
use alpha_shadow.Rbac.Authorization.Checks.{IsAuthorized, check_iff, check-sensitive}

abbrev allowed_to_500 : PermissionCheckOutcome
allowed_to_500 = record { allowed = true; effective_max_amount_minor_units = some (pos 500) }

abbrev grant_to_500 : PermissionGrant
grant_to_500 = record {
  role_id = codes "r1";
  role_version = 1;
  scope_type = tenant;
  scope_id = none;
  max_amount_minor_units = some (pos 500);
  is_sensitive = true;
}

abbrev one_grant : PermissionReads
one_grant = record {
  is_user_active = λ _ _. true;
  list_active_user_roles = λ _ _. [];
  get_security_version = λ _ _. 1;
  get_applicable_grants = λ _ _ _ _. grant_to_500 ∷ [];
  digest = λ _. codes "d";
}

abbrev refund_of_400 : CheckPermissionInput
refund_of_400 = record {
  tenant_id = codes "t1";
  user_id = codes "u1";
  permission_key = codes "payments:refund";
  context = record {
    actor_branch_id = some (codes "b1");
    resource_of = resource (codes "b1") (some (pos 400));
    is_sensitive_permission = true;
  };
  token_sec_v = some (codes "d");
}

check_iff_example :
    ((limit : Option ℤ) × ((check one_grant refund_of_400 0 none).0 ≡ ok limit))
    ↔ IsAuthorized one_grant refund_of_400
check_iff_example = check_iff one_grant refund_of_400 0

abbrev empty_cache : CacheState one_grant
empty_cache = some (record { entries = []; max_entries = 2; ttl_ms = 60_000 })

check-sensitive_example :
    check one_grant refund_of_400 7 empty_cache
    ≡ ((check one_grant refund_of_400 7 none).0, empty_cache)
check-sensitive_example = check-sensitive one_grant refund_of_400 7 empty_cache refl

compute_outcome_iff_example :
    (((compute_outcome (grant_to_500 ∷ [])).allowed ≡ true)
      × (over_cap
            (some (pos 400))
            (compute_outcome (grant_to_500 ∷ [])).effective_max_amount_minor_units
          ≡ false))
    ↔ Any (Permits (pos 400)) (grant_to_500 ∷ [])
compute_outcome_iff_example = compute_outcome_iff (pos 400) (grant_to_500 ∷ [])

abbrev one_entry : L1PermissionCache Text
one_entry = record {
  entries = (codes "k1", record { value = allowed_to_500; stored_at = 3 }) ∷ [];
  max_entries = 1;
  ttl_ms = 60_000;
}

cache_get-set_example :
    (cache_get (codes "k2") 90 (cache_set (codes "k2") allowed_to_500 50 one_entry)).0
    ≡ (if leb 60_000 (90 - 50) then none else some allowed_to_500)
cache_get-set_example = cache_get-set (codes "k2") allowed_to_500 50 90 one_entry (omega arith)

cache_set_lem_example :
    let all =
      renewed (codes "k2") (record { value = allowed_to_500; stored_at = 50 }) one_entry.entries in
    (old : List (Text × CacheNode)) × (old
        ++ (cache_set (codes "k2") allowed_to_500 50 one_entry).entries
      ≡ all)
    × (size (cache_set (codes "k2") allowed_to_500 50 one_entry)
        ≡ (if leb (length all) 1 then length all else 1))
cache_set_lem_example = cache_set_lem (codes "k2") allowed_to_500 50 one_entry

abbrev small_refund : CheckPermissionInput
small_refund = record refund_of_400 {
  context = record {
    actor_branch_id = some (codes "b1");
    resource_of = resource (codes "b1") (some (pos 400));
    is_sensitive_permission = false;
  };
}

abbrev warm_cache : CacheState one_grant
warm_cache = some (record {
  entries = (cache_key small_refund, record { value = allowed_to_500; stored_at = 3 }) ∷ [];
  max_entries = 2;
  ttl_ms = 60_000;
})

warm_cache-IsCoherent : IsCoherent one_grant warm_cache
unfolding fresh_outcome compute_outcome scan_grants
warm_cache-IsCoherent = (refl, tt)

check-IsCoherent_example :
    ((check one_grant small_refund 7 warm_cache).0 ≡ (check one_grant small_refund 7 none).0)
    × IsCoherent one_grant (check one_grant small_refund 7 warm_cache).1
check-IsCoherent_example =
    check-IsCoherent one_grant small_refund 7 warm_cache warm_cache-IsCoherent
