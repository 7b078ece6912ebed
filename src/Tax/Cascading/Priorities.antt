-- ===== src/Tax/Cascading/Priorities.antt =====
-- The priorities of the taxes of all lines.
use mathlib.Core.Path.{subst}
use alpha_shadow.Prelude.{
  ℕ, ◌<◌, ◌≡◌, refl, sym, ap, ◌∙◌, ltb, ◌==◌, arith, if◌then◌else◌, inl, inr, Bool-cases, some, All,
  All-map, List, [], ◌∷◌, Text, text_eq, text_beq,
}
use alpha_shadow.Prelude.Assoc.{get}
use alpha_shadow.Tax.Cascading.{ApplicableTax, insert_priority, add_priorities, priorities_of}
use alpha_shadow.Tax.Cascading.Bases.{IsOneOf}

abbrev pub Ascending : List ℕ → Type 0
Ascending [] = Unit
Ascending (p ∷ ps) = All (λ q. p < q) ps × Ascending ps

insert_priority-All :
    (P : ℕ → Type 0) (p : ℕ) (ps : List ℕ) → P p → All P ps → All P (insert_priority p ps)
unfolding insert_priority
insert_priority-All P p [] h k = (h, tt)
insert_priority-All P p (q ∷ ps) h (k, ks) = elim (Bool-cases (p == q)) [
  | inl same ↦ rw same (k, ks)
  | inr other ↦ elim (Bool-cases (ltb p q)) [
    | inl below ↦ rw (other, below) (h, (k, ks))
    | inr above ↦ rw (other, above) (k, insert_priority-All P p ps h ks)
  ]
]

insert_priority-Ascending : (p : ℕ) (ps : List ℕ) → Ascending ps → Ascending (insert_priority p ps)
unfolding insert_priority
insert_priority-Ascending p [] h = (tt, tt)
insert_priority-Ascending p (q ∷ ps) (low, h) = elim (Bool-cases (p == q)) [
  | inl same ↦ rw same (low, h)
  | inr other ↦ elim (Bool-cases (ltb p q)) [
    | inl below ↦
        let first : p < q = ground (arith, below) in
        rw (other, below)
          (
            (first, All-map (λ r. q < r) (λ r. p < r) ps (λ r k. omega (arith, first, k)) low),
            (low, h),
          )
    | inr above ↦
        let first : q < p = ground (arith, other, above) in
        rw (other, above)
          (insert_priority-All (λ r. q < r) p ps first low, insert_priority-Ascending p ps h)
  ]
]

insert_priority_self : (p : ℕ) (ps : List ℕ) → IsOneOf p (insert_priority p ps)
unfolding insert_priority
insert_priority_self p [] = inl refl
insert_priority_self p (q ∷ ps) = elim (Bool-cases (p == q)) [
  | inl same ↦ rw same (inl (ground (arith, same)))
  | inr other ↦ elim (Bool-cases (ltb p q)) [
    | inl below ↦ rw (other, below) (inl refl)
    | inr above ↦ rw (other, above) (inr (insert_priority_self p ps))
  ]
]

insert_priority_kept : (p r : ℕ) (ps : List ℕ) → IsOneOf r ps → IsOneOf r (insert_priority p ps)
unfolding insert_priority
insert_priority_kept p r [] i = absurd i
insert_priority_kept p r (q ∷ ps) i = elim (Bool-cases (p == q)) [
  | inl same ↦ rw same i
  | inr other ↦ elim (Bool-cases (ltb p q)) [
    | inl below ↦ rw (other, below) (inr i)
    | inr above ↦ rw (other, above) (kept i (λ later. insert_priority_kept p r ps later))
  ]
]
  where
    kept :
        IsOneOf r (q ∷ ps)
        → (IsOneOf r ps → IsOneOf r (insert_priority p ps))
        → IsOneOf r (q ∷ insert_priority p ps)
    kept (inl same) f = inl same
    kept (inr later) f = inr (f later)

add_priorities-Ascending :
    (taxes : List ApplicableTax) (ps : List ℕ) → Ascending ps → Ascending (add_priorities taxes ps)
unfolding add_priorities
add_priorities-Ascending [] ps h = h
add_priorities-Ascending (t ∷ rest) ps h =
    insert_priority-Ascending t.category.cascade_priority (add_priorities rest ps)
      (add_priorities-Ascending rest ps h)

add_priorities_kept :
    (taxes : List ApplicableTax) (ps : List ℕ) (r : ℕ)
    → IsOneOf r ps
    → IsOneOf r (add_priorities taxes ps)
unfolding add_priorities
add_priorities_kept [] ps r i = i
add_priorities_kept (t ∷ rest) ps r i =
    insert_priority_kept t.category.cascade_priority r (add_priorities rest ps)
      (add_priorities_kept rest ps r i)

-- Every tax has its priority among those of a list.
abbrev pub Covered : List ℕ → List ApplicableTax → Type 0
Covered ps = All (λ t. IsOneOf t.category.cascade_priority ps)

add_priorities-Covered :
    (taxes : List ApplicableTax) (ps : List ℕ) → Covered (add_priorities taxes ps) taxes
unfolding add_priorities
add_priorities-Covered [] ps = tt
add_priorities-Covered (t ∷ rest) ps = (
  insert_priority_self t.category.cascade_priority (add_priorities rest ps),
  All-map (λ u. IsOneOf u.category.cascade_priority (add_priorities rest ps))
      (λ u.
        IsOneOf u.category.cascade_priority
          (insert_priority t.category.cascade_priority (add_priorities rest ps)))
      rest
      (λ u i.
        insert_priority_kept t.category.cascade_priority u.category.cascade_priority
          (add_priorities rest ps) i)
      (add_priorities-Covered rest ps),
)

pub priorities_of-Ascending :
    (taxes : List (Text × List ApplicableTax)) → Ascending (priorities_of taxes)
unfolding priorities_of
priorities_of-Ascending [] = tt
priorities_of-Ascending ((id, ts) ∷ rest) =
    add_priorities-Ascending ts (priorities_of rest) (priorities_of-Ascending rest)

pub priorities_of-Covered :
    (id : Text) (taxes : List (Text × List ApplicableTax)) {ts : List ApplicableTax}
    → get id taxes ≡ some ts
    → Covered (priorities_of taxes) ts
unfolding priorities_of get
priorities_of-Covered id [] h = cc
priorities_of-Covered id ((k, us) ∷ rest) {ts} h = elim (Bool-cases (text_beq k id)) [
  | inl same ↦
      let e = some-taxes (ap (λ b. if b then some us else get id rest) (sym same) ∙ h) in
      subst (Covered (add_priorities us (priorities_of rest))) e
        (add_priorities-Covered us (priorities_of rest))
  | inr other ↦
      All-map (λ u. IsOneOf u.category.cascade_priority (priorities_of rest))
        (λ u. IsOneOf u.category.cascade_priority (add_priorities us (priorities_of rest))) ts
        (λ u i. add_priorities_kept us (priorities_of rest) u.category.cascade_priority i)
        (priorities_of-Covered id rest
          (ap (λ b. if b then some us else get id rest) (sym other) ∙ h))
]
  where
    some-taxes : {a b : List ApplicableTax} → some a ≡ some b → a ≡ b
    some-taxes e = cc
