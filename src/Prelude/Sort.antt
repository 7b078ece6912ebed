-- ===== src/Prelude/Sort.antt =====
-- `Array.prototype.sort` with a consistent comparator: stable, written as an insertion sort.
-- `before a b` is "the comparator is negative".
use Prim.Native.Nat.{ℕ, suc, ◌+◌}
use mathlib.Core.Path.{◌≡◌, refl, ap, ◌∙◌}
use mathlib.Core.Bool.{Bool, true, false}
use mathlib.Core.Logic.{inl, inr}
use mathlib.Core.List.{List, [], ◌∷◌, Perm}
use mathlib.Core.List.Perm
use native.Mathlib.Omega.{arith}
use alpha_shadow.Prelude.Tests.{if◌then◌else◌, Bool-cases}
use alpha_shadow.Prelude.Lists.{length, sum_of, All, All-map}

module _ {ℓ} {A : Type ℓ} (before : A → A → Bool) where
  unfoldable pub insert : A → List A → List A
  insert x [] = x ∷ []
  insert x (y ∷ ys) = if before y x then y ∷ insert x ys else x ∷ y ∷ ys

  unfoldable pub sort : List A → List A
  unfolding insert
  sort [] = []
  sort (x ∷ xs) = insert x (sort xs)

  -- Every element comes before none of its predecessors.
  abbrev pub IsSorted : List A → Type 0
  IsSorted [] = Unit
  IsSorted (x ∷ xs) = All (λ y. before y x ≡ false) xs × IsSorted xs

  insert-perm : (x : A) (xs : List A) → Perm (insert x xs) (x ∷ xs)
  unfolding insert
  insert-perm x [] = Perm.refl (x ∷ [])
  insert-perm x (y ∷ ys) = elim (Bool-cases (before y x)) [
    | inl h ↦ rw h (Perm.trans (Perm.cons y (insert-perm x ys)) (Perm.swap x y ys))
    | inr h ↦ rw h (Perm.refl (x ∷ y ∷ ys))
  ]

  pub sort-perm : (xs : List A) → Perm (sort xs) xs
  unfolding sort
  sort-perm [] = Perm.refl []
  sort-perm (x ∷ xs) = Perm.trans (insert-perm x (sort xs)) (Perm.cons x (sort-perm xs))

  insert-sum_of : (f : A → ℕ) (x : A) (xs : List A) → sum_of f (insert x xs) ≡ f x + sum_of f xs
  unfolding insert
  insert-sum_of f x [] = refl
  insert-sum_of f x (y ∷ ys) = ground (arith, insert-sum_of f x ys)

  -- Sorting keeps every sum over the elements.
  pub sum_of-sort : (f : A → ℕ) (xs : List A) → sum_of f (sort xs) ≡ sum_of f xs
  unfolding sort
  sum_of-sort f [] = refl
  sum_of-sort f (x ∷ xs) = omega (arith, insert-sum_of f x (sort xs), sum_of-sort f xs)

  insert-length : (x : A) (xs : List A) → length (insert x xs) ≡ suc (length xs)
  unfolding insert
  insert-length x [] = refl
  insert-length x (y ∷ ys) = ground (arith, insert-length x ys)

  pub length-sort : (xs : List A) → length (sort xs) ≡ length xs
  unfolding sort
  length-sort [] = refl
  length-sort (x ∷ xs) = insert-length x (sort xs) ∙ ap suc (length-sort xs)

  module _ {κ} (P : A → Type κ) where
    insert-All : (x : A) (xs : List A) → P x → All P xs → All P (insert x xs)
    unfolding insert
    insert-All x [] p h = (p, tt)
    insert-All x (y ∷ ys) p (q, h) = elim (Bool-cases (before y x)) [
      | inl e ↦ rw e (q, insert-All x ys p h)
      | inr e ↦ rw e (p, (q, h))
    ]

    pub All-sort : (xs : List A) → All P xs → All P (sort xs)
    unfolding sort
    All-sort [] h = tt
    All-sort (x ∷ xs) (p, h) = insert-All x (sort xs) p (All-sort xs h)

  module _ (weak_trans : (x y z : A) → before y x ≡ false → before z y ≡ false → before z x ≡ false)
      (asym : (x y : A) → before x y ≡ true → before y x ≡ false) where
    insert-IsSorted : (x : A) (xs : List A) → IsSorted xs → IsSorted (insert x xs)
    unfolding insert
    insert-IsSorted x [] h = (tt, tt)
    insert-IsSorted x (y ∷ ys) (below, h) = elim (Bool-cases (before y x)) [
      | inl e ↦
          rw e
            (insert-All (λ z. before z y ≡ false) x ys (asym y x e) below, insert-IsSorted x ys h)
      | inr e ↦ rw e (
        (
          e,
          All-map (λ z. before z y ≡ false) (λ z. before z x ≡ false) ys
              (λ z k. weak_trans x y z e k) below,
        ),
        (below, h),
      )
    ]

    pub sort-IsSorted : (xs : List A) → IsSorted (sort xs)
    unfolding sort
    sort-IsSorted [] = tt
    sort-IsSorted (x ∷ xs) = insert-IsSorted x (sort xs) (sort-IsSorted xs)
