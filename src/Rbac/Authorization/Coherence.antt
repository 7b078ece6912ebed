-- ===== src/Rbac/Authorization/Coherence.antt =====
-- The cache against the store: a cache that agrees with the store changes no decision.
use mathlib.Core.Path.{subst}
use alpha_shadow.Prelude.{
  ℕ, ◌-◌, ◌≡◌, refl, sym, ap, ◌∙◌, Bool, true, false, leb, length, arith, if◌then◌else◌, Bool-cases,
  inl, inr, Option, none, some, All, List, [], ◌∷◌, Result, ok, err,
}
use alpha_shadow.Prelude.Assoc.{get, has, put, delete}
use alpha_shadow.Rbac.L1Cache.{
  PermissionCheckOutcome, CacheNode, L1PermissionCache, read_node, cache_get, evict, cache_set,
}
use alpha_shadow.Rbac.Authorization.{
  CheckPermissionInput, PermissionReads, CacheKey, key_beq, key_beq_iff, key_eq, cache_key,
  fresh_outcome, after_lookup, CacheState, permission_check, tenant_guard, decide, after_guard,
  check,
}

module _ (P : CacheKey → CacheNode → Type 0) where
  abbrev Entries : List (CacheKey × CacheNode) → Type 0
  Entries = All (λ e. P e.0 e.1)

  get-Entries :
      (k : CacheKey) (m : List (CacheKey × CacheNode)) {n : CacheNode}
      → Entries m
      → get k m ≡ some n
      → P k n
  unfolding get
  get-Entries k [] h e = absurd (ground arith)
  get-Entries k ((j, w) ∷ m) {n} (p, h) e = elim (Bool-cases (key_beq j k)) [
    | inl same ↦
        let found : some w ≡ some n = ap (λ b. if b then some w else get k m) (sym same) ∙ e in
        subst (P k) (cc found) (subst (λ i. P i w) ((key_beq_iff j k).0 same) p)
    | inr other ↦ get-Entries k m h (ap (λ b. if b then some w else get k m) (sym other) ∙ e)
  ]

  put-Entries :
      (k : CacheKey) (n : CacheNode) (m : List (CacheKey × CacheNode))
      → P k n
      → Entries m
      → Entries (put k n m)
  unfolding put
  put-Entries k n [] p h = (p, tt)
  put-Entries k n ((j, w) ∷ m) p (q, h) = elim (Bool-cases (key_beq j k)) [
    | inl same ↦ rw same (subst (λ i. P i n) (sym ((key_beq_iff j k).0 same)) p, h)
    | inr other ↦ rw other (q, put-Entries k n m p h)
  ]

  delete-Entries :
      (k : CacheKey) (m : List (CacheKey × CacheNode)) → Entries m → Entries (delete k m)
  unfolding delete
  delete-Entries k [] h = tt
  delete-Entries k ((j, w) ∷ m) (q, h) = elim (Bool-cases (key_beq j k)) [
    | inl same ↦ rw same (delete-Entries k m h)
    | inr other ↦ rw other (q, delete-Entries k m h)
  ]

  evict-Entries : (max : ℕ) (m : List (CacheKey × CacheNode)) → Entries m → Entries (evict max m)
  unfolding evict
  evict-Entries max [] h = tt
  evict-Entries max ((j, w) ∷ m) (q, h) = elim (Bool-cases (leb (length ((j, w) ∷ m)) max)) [
    | inl fits ↦ rw fits (q, h)
    | inr full ↦ rw full (evict-Entries max m h)
  ]

  renew-Entries :
      (k : CacheKey) (b : Bool) (m : List (CacheKey × CacheNode))
      → Entries m
      → Entries (if b then delete k m else m)
  renew-Entries k true m h = delete-Entries k m h
  renew-Entries k false m h = h

module _ (reads : PermissionReads) where
  abbrev pub IsFresh : CacheKey → CacheNode → Type 0
  IsFresh key node = node.value ≡ fresh_outcome reads key

  -- Every entry of the cache holds the outcome that the store gives for its key.
  abbrev pub IsCoherent : CacheState reads → Type 0
  IsCoherent none = Unit
  IsCoherent (some cache) = Entries IsFresh cache.entries

  cache_set-IsCoherent :
      (key : CacheKey) (now : ℕ) (cache : L1PermissionCache CacheKey)
      → IsCoherent (some cache)
      → IsCoherent (some (cache_set key (fresh_outcome reads key) now cache))
  unfolding cache_set
  cache_set-IsCoherent key now cache h = evict-Entries IsFresh cache.max_entries _ (
      put-Entries IsFresh key (record { value = fresh_outcome reads key; stored_at = now }) _ refl
        (renew-Entries IsFresh key (has key cache.entries) cache.entries h))

  -- The outcome is that of the store, and the cache stays coherent.
  abbrev Agrees : CacheKey → PermissionCheckOutcome × L1PermissionCache CacheKey → Type 0
  Agrees key (outcome, cache) = (outcome ≡ fresh_outcome reads key) × IsCoherent (some cache)

  read_node-Agrees :
      (key : CacheKey) (now : ℕ) (cache : L1PermissionCache CacheKey) (o : Option CacheNode)
      → get key cache.entries ≡ o
      → IsCoherent (some cache)
      → Agrees key (after_lookup reads key now (read_node key now cache o))
  unfolding after_lookup read_node
  read_node-Agrees key now cache none e h = (refl, cache_set-IsCoherent key now cache h)
  read_node-Agrees key now cache (some node) e h =
      elim (Bool-cases (leb cache.ttl_ms (now - node.stored_at))) [
        | inl expired ↦ rw expired (
          refl,
          cache_set-IsCoherent key now (record cache { entries = delete key cache.entries })
              (delete-Entries IsFresh key cache.entries h),
        )
        | inr live ↦
            let fresh = get-Entries IsFresh key cache.entries h e in
            rw live (
              fresh,
              put-Entries IsFresh key node (delete key cache.entries) fresh
                  (delete-Entries IsFresh key cache.entries h),
            )
      ]

  permission_check-agrees :
      (sensitive : Bool) (key : CacheKey) (now : ℕ) (cache : CacheState reads)
      → IsCoherent cache
      → ((permission_check reads sensitive key now cache).0 ≡ fresh_outcome reads key)
        × IsCoherent (permission_check reads sensitive key now cache).1
  unfolding permission_check cache_get
  permission_check-agrees true key now cache h = (refl, h)
  permission_check-agrees false key now none h = (refl, tt)
  permission_check-agrees false key now (some cache) h =
      read_node-Agrees key now cache (get key cache.entries) refl h

  after_guard-agrees :
      (input : CheckPermissionInput) (now later : ℕ) (cache : CacheState reads)
      (g : Result (Unit {0}))
      → IsCoherent cache
      → ((after_guard reads input now cache g).0 ≡ (after_guard reads input later none g).0)
        × IsCoherent (after_guard reads input now cache g).1
  unfolding after_guard
  after_guard-agrees input now later cache (err e) h = (refl, h)
  after_guard-agrees input now later cache (ok u) h =
      let (hit, coherent) =
        permission_check-agrees input.context.is_sensitive_permission (cache_key input) now cache
          h in
      let (miss, _) =
        permission_check-agrees input.context.is_sensitive_permission (cache_key input) later none
          tt in
      (ap (decide reads input) (hit ∙ sym miss), coherent)

  -- With a cache whose entries hold what the store gives, a check decides as it does without a
  -- cache, and it leaves such a cache, whatever has expired or is evicted.
  pub check-IsCoherent :
      (input : CheckPermissionInput) (now : ℕ) (cache : CacheState reads)
      → IsCoherent cache
      → ((check reads input now cache).0 ≡ (check reads input now none).0)
        × IsCoherent (check reads input now cache).1
  unfolding check
  check-IsCoherent input now cache h =
      after_guard-agrees input now now cache (tenant_guard reads input) h
