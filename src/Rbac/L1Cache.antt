-- ===== src/Rbac/L1Cache.antt =====
-- application/engines/rbac/l1-permission-cache.ts: an LRU cache of permission outcomes with a
-- lifetime. The entries are a `Map`, oldest first; `now` is the reading of the injected clock.
pub mod Laws
use alpha_shadow.Prelude.{
  ℕ, zero, suc, ◌-◌, Bool, leb, if◌then◌else◌, Option, none, some, ℤ, Num, int, non_integer, pos,
  negsuc, List, [], ◌∷◌, ◌++◌, length, Eq, Result, ok, err, ◌>>=◌, validation,
}
use alpha_shadow.Prelude.Assoc.{get, put, has, delete}

pub record PermissionCheckOutcome : Type 0 where
  pub allowed : Bool
  pub effective_max_amount_minor_units : Option ℤ

pub record CacheNode : Type 0 where
  pub value : PermissionCheckOutcome
  pub stored_at : ℕ

abbrev pub default_max_entries : ℕ
default_max_entries = 1024

abbrev pub default_ttl_ms : ℕ
default_ttl_ms = 60_000

pub record L1PermissionCache (K : Type 0) : Type 0 where
  pub entries : List (K × CacheNode)
  pub max_entries : ℕ
  pub ttl_ms : ℕ

-- `value ?? fallback`, and the check that the number is a positive integer.
abbrev pub positive_or : ℕ → Option Num → Result ℕ
positive_or fallback none = ok fallback
positive_or fallback (some (int (pos (suc n)))) = ok (suc n)
positive_or fallback (some (int (pos zero))) = err validation
positive_or fallback (some (int (negsuc n))) = err validation
positive_or fallback (some non_integer) = err validation

-- The constructor.
unfoldable pub new_cache : {K : Type 0} → Option Num → Option Num → Result (L1PermissionCache K)
new_cache max_entries ttl_ms = do
  max ← positive_or default_max_entries max_entries
  ttl ← positive_or default_ttl_ms ttl_ms
  ok (record { entries = []; max_entries = max; ttl_ms = ttl })

module _ {K : Type 0} ⦃e : Eq K⦄ where
  -- `get` on the node that the map holds.
  unfoldable pub read_node :
      K
      → ℕ
      → L1PermissionCache K
      → Option CacheNode
      → Option PermissionCheckOutcome × L1PermissionCache K
  read_node key now cache none = (none, cache)
  read_node key now cache (some node) =
      if leb cache.ttl_ms (now - node.stored_at)
      then (none, record cache { entries = delete key cache.entries })
      else (some node.value, record cache { entries = put key node (delete key cache.entries) })

  unfoldable pub cache_get :
      K → ℕ → L1PermissionCache K → Option PermissionCheckOutcome × L1PermissionCache K
  unfolding read_node
  cache_get key now cache = read_node key now cache (get key cache.entries)

  -- The `while` loop: the oldest key goes as long as there are too many.
  unfoldable pub evict : ℕ → List (K × CacheNode) → List (K × CacheNode)
  evict max [] = []
  evict max ((k, node) ∷ rest) =
      if leb (length ((k, node) ∷ rest)) max then (k, node) ∷ rest else evict max rest

  unfoldable pub cache_set :
      K → PermissionCheckOutcome → ℕ → L1PermissionCache K → L1PermissionCache K
  unfolding evict
  cache_set key value now cache = record cache {
    entries = evict cache.max_entries (
        put key (record { value = value; stored_at = now })
          (if has key cache.entries then delete key cache.entries else cache.entries));
  }
