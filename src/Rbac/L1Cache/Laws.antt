-- ===== src/Rbac/L1Cache/Laws.antt =====
-- The cache holds at most `max_entries`, answers with what was stored last, and forgets what is older
-- than its lifetime.
use alpha_shadow.Prelude.{
  ℕ, suc, ◌-◌, ◌≤◌, ◌<◌, ◌≡◌, refl, sym, ap, ◌∙◌, true, false, arith, leb, if◌then◌else◌, inl, inr,
  Bool-cases, Option-cases, none, some, List, [], ◌∷◌, ◌++◌, length, Eq,
}
use alpha_shadow.Prelude.Assoc.{get, put, has, delete, get-delete}
use alpha_shadow.Rbac.L1Cache.{
  PermissionCheckOutcome, CacheNode, L1PermissionCache, read_node, cache_get, evict, cache_set,
}

one_fits : (max : ℕ) → leb 1 (suc max) ≡ true
one_fits max = ground arith

module _ {K : Type 0} ⦃e : Eq K⦄ where
  abbrev pub size : L1PermissionCache K → ℕ
  size cache = length cache.entries

  length-evict : (max : ℕ) (m : List (K × CacheNode)) → length (evict max m) ≤ max
  unfolding evict
  length-evict max [] = omega arith
  length-evict max ((k, n) ∷ m) = ground (arith, length-evict max m)

  length-delete : (k : K) (m : List (K × CacheNode)) → length (delete k m) ≤ length m
  unfolding delete
  length-delete k [] = omega arith
  length-delete k ((j, n) ∷ m) = ground (arith, length-delete k m)

  length-delete-lt :
      (k : K) (m : List (K × CacheNode)) (n : CacheNode)
      → get k m ≡ some n
      → suc (length (delete k m)) ≤ length m
  unfolding delete get
  length-delete-lt k [] n h = cc
  length-delete-lt k ((j, w) ∷ m) n h = ground (arith, length-delete-lt k m n, length-delete k m)

  length-put :
      (k : K) (n : CacheNode) (m : List (K × CacheNode)) → length (put k n m) ≤ suc (length m)
  unfolding put
  length-put k n [] = omega arith
  length-put k n ((j, w) ∷ m) = ground (arith, length-put k n m)

  -- Storing an entry leaves at most `max_entries`, and reading one never adds any.
  pub size_bounds :
      (key : K) (value : PermissionCheckOutcome) (now : ℕ) (cache : L1PermissionCache K)
      → (size (cache_set key value now cache) ≤ cache.max_entries)
        × (size (cache_get key now cache).1 ≤ size cache)
  unfolding cache_set cache_get
  size_bounds key value now cache = (
    length-evict cache.max_entries _,
    elim (Option-cases (get key cache.entries)) [
      | inl missing ↦ rw missing (omega arith)
      | inr (node, found) ↦ rw found (
          ground (
            arith,
            length-delete key cache.entries,
            length-delete-lt key cache.entries node found,
            length-put key node (delete key cache.entries),
          ))
    ],
  )

  get-delete_self : (k : K) (m : List (K × CacheNode)) → get k (delete k m) ≡ none
  get-delete_self k m = get-delete k k m ∙ rw ((e.beq_iff k k).1 refl)

  delete_missing : (k : K) (m : List (K × CacheNode)) → has k m ≡ false → delete k m ≡ m
  unfolding delete has
  delete_missing k [] h = refl
  delete_missing k ((j, n) ∷ m) h = ground (arith, delete_missing k m)

  put_missing :
      (k : K) (n : CacheNode) (m : List (K × CacheNode))
      → get k m ≡ none
      → put k n m ≡ m ++ (k, n) ∷ []
  unfolding put get
  put_missing k n [] h = refl
  put_missing k n ((j, w) ∷ m) h = ground (arith, put_missing k n m)

  -- An entry that is stored or read goes to the end, behind the others in their order.
  pub renewed : K → CacheNode → List (K × CacheNode) → List (K × CacheNode)
  renewed key node m = delete key m ++ (key, node) ∷ []

  put-delete :
      (k : K) (n : CacheNode) (m : List (K × CacheNode)) → put k n (delete k m) ≡ renewed k n m
  unfolding renewed
  put-delete k n m = put_missing k n (delete k m) (get-delete_self k m)

  stored :
      (key : K) (n : CacheNode) (m : List (K × CacheNode))
      → put key n (if has key m then delete key m else m) ≡ renewed key n m
  stored key n m = elim (Bool-cases (has key m)) [
    | inl h ↦ rw h (put-delete key n m)
    | inr h ↦ rw h (ap (put key n) (sym (delete_missing key m h)) ∙ put-delete key n m)
  ]

  evict-suffix :
      (max : ℕ) (m : List (K × CacheNode))
      → (old : List (K × CacheNode)) × (old ++ evict max m ≡ m)
        × (length (evict max m) ≡ (if leb (length m) max then length m else max))
  unfolding evict
  evict-suffix max [] = ([], refl, ground arith)
  evict-suffix max ((k, n) ∷ m) =
      let (old, split, count) = evict-suffix max m in
      elim (Bool-cases (leb (length ((k, n) ∷ m)) max)) [
        | inl fits ↦ ([], rw fits, rw fits)
        | inr full ↦ ((k, n) ∷ old, rw full (ap (◌∷◌ (k, n)) split), rw full (count ∙ ground arith))
      ]

  -- Storing renews the entry and then drops the oldest ones, no more than the bound demands.
  pub cache_set_lem :
      (key : K) (value : PermissionCheckOutcome) (now : ℕ) (cache : L1PermissionCache K)
      → let all = renewed key (record { value = value; stored_at = now }) cache.entries in
        (old : List (K × CacheNode)) × (old ++ (cache_set key value now cache).entries ≡ all)
        × (size (cache_set key value now cache)
            ≡ (if leb (length all) cache.max_entries then length all else cache.max_entries))
  unfolding cache_set
  cache_set_lem key value now cache =
      rw (stored key (record { value = value; stored_at = now }) cache.entries) (
        evict-suffix cache.max_entries
          (renewed key (record { value = value; stored_at = now }) cache.entries))

  get-append_last :
      (k : K) (n : CacheNode) (m : List (K × CacheNode))
      → get k m ≡ none
      → get k (m ++ (k, n) ∷ []) ≡ some n
  unfolding get
  get-append_last k n [] h = rw ((e.beq_iff k k).1 refl)
  get-append_last k n ((j, w) ∷ m) h = ground (arith, get-append_last k n m)

  get-tail :
      (k j : K) (w : CacheNode) (m : List (K × CacheNode))
      → get k ((j, w) ∷ m) ≡ none
      → get k m ≡ none
  unfolding get
  get-tail k j w m h = ground arith

  get-evict_last :
      (k : K) (n : CacheNode) (max : ℕ) (m : List (K × CacheNode))
      → get k m ≡ none
      → get k (evict (suc max) (m ++ (k, n) ∷ [])) ≡ some n
  unfolding evict
  get-evict_last k n max [] h = rw (one_fits max) (get-append_last k n [] h)
  get-evict_last k n max ((j, w) ∷ m) h =
      elim (Bool-cases (leb (length ((j, w) ∷ m ++ (k, n) ∷ [])) (suc max))) [
        | inl fits ↦ rw fits (get-append_last k n ((j, w) ∷ m) h)
        | inr full ↦ rw full (get-evict_last k n max m (get-tail k j w m h))
      ]

  stored_node :
      (key : K) (n : CacheNode) (max : ℕ) (m : List (K × CacheNode))
      → get key (evict (suc max) (renewed key n m)) ≡ some n
  unfolding renewed
  stored_node key n max m = get-evict_last key n max (delete key m) (get-delete_self key m)

  read-stored :
      (key : K) (value : PermissionCheckOutcome) (now later : ℕ) (cache : L1PermissionCache K)
      (max : ℕ)
      → cache.max_entries ≡ suc max
      → get key (cache_set key value now cache).entries
        ≡ some (record { value = value; stored_at = now })
  unfolding cache_set
  read-stored key value now later cache max h =
      rw (stored key (record { value = value; stored_at = now }) cache.entries, h)
        (stored_node key (record { value = value; stored_at = now }) max cache.entries)

  read_node_value :
      (key : K) (now : ℕ) (cache : L1PermissionCache K) (node : CacheNode)
      → (read_node key now cache (some node)).0
        ≡ (if leb cache.ttl_ms (now - node.stored_at) then none else some node.value)
  unfolding read_node
  read_node_value key now cache node = ground arith

  ttl-set :
      (key : K) (value : PermissionCheckOutcome) (now : ℕ) (cache : L1PermissionCache K)
      → (cache_set key value now cache).ttl_ms ≡ cache.ttl_ms
  unfolding cache_set
  ttl-set key value now cache = refl

  -- What was stored is returned for as long as the lifetime lasts, and never from then on.
  pub cache_get-set :
      (key : K) (value : PermissionCheckOutcome) (now later : ℕ) (cache : L1PermissionCache K)
      → 0 < cache.max_entries
      → (cache_get key later (cache_set key value now cache)).0
        ≡ (if leb cache.ttl_ms (later - now) then none else some value)
  unfolding cache_get
  cache_get-set key value now later cache h =
      let c : cache.max_entries ≡ suc (cache.max_entries - 1) = omega arith in
      let node : CacheNode = record { value = value; stored_at = now } in
      rw (read-stored key value now later cache (cache.max_entries - 1) c) (
        read_node_value key later (cache_set key value now cache) node
        ∙ rw (ttl-set key value now cache))
