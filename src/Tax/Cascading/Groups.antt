-- ===== src/Tax/Cascading/Groups.antt =====
-- The works that a priority collects, in groups of one rate.
use mathlib.Core.List.{append_assoc}
use alpha_shadow.Prelude.{
  ℕ, ◌+◌, ◌≡◌, refl, sym, ◌∙◌, Bool, true, false, ◌==◌, arith, if◌then◌else◌, inl, inr, Bool-cases,
  Num, int, non_integer, ℤ, All, length, length-append, List, [], ◌∷◌, ◌++◌, Text, text_eq,
  text_beq, text_beq_iff, sum_of,
}
use alpha_shadow.Tax.Cascading.{
  ApplicableTax, TaxComputationPlan, Work, GroupId, num_beq, same_flag, group_beq, group_id,
  push_work, collect_taxes,
}
use alpha_shadow.Tax.Cascading.Bases.{IsAt, count_at}

-- How many works of a line are of the tax at a place.
abbrev pub count_works : ℕ → Text → List Work → ℕ
count_works place id [] = 0
count_works place id (w ∷ ws) =
    let later = count_works place id ws in
    if text_beq w.line_id id then (if w.sequence == place then 1 + later else later) else later

abbrev pub count_groups : ℕ → Text → List (GroupId × List Work) → ℕ
count_groups place id groups = sum_of (λ g. count_works place id g.1) groups

-- The works of a group share the rate of its id.
abbrev pub InGroup : GroupId → Work → Type 0
InGroup id w =
    (id.rate_id ≡ w.tax.rate.id)
    × (id.rate_bps ≡ w.tax.rate.rate_bps)
    × (id.inclusive ≡ w.tax.rate.is_price_inclusive_default)

abbrev pub AreGroups : (Work → Type 0) → List (GroupId × List Work) → Type 0
AreGroups Fact = All (λ g. All (λ w. InGroup g.0 w × Fact w) g.1)

num_beq_sound : (a b : Num) → num_beq a b ≡ true → a ≡ b
num_beq_sound (int a) (int b) h = ground (arith, h)
num_beq_sound non_integer non_integer h = refl
num_beq_sound (int a) non_integer h = cc
num_beq_sound non_integer (int b) h = cc

same_flag_sound : (a b : Bool) → same_flag a b ≡ true → a ≡ b
same_flag_sound true true h = refl
same_flag_sound true false h = cc
same_flag_sound false true h = cc
same_flag_sound false false h = refl

group_beq_sound :
    (a b : GroupId)
    → group_beq a b ≡ true
    → (a.rate_id ≡ b.rate_id) × (a.rate_bps ≡ b.rate_bps) × (a.inclusive ≡ b.inclusive)
unfolding group_beq
group_beq_sound a b h = (
  (text_beq_iff a.rate_id b.rate_id).0 (ground (arith, h)),
  num_beq_sound a.rate_bps b.rate_bps (ground (arith, h)),
  same_flag_sound a.inclusive b.inclusive (ground (arith, h)),
)

All-snoc {ℓ} :
    {A : Type ℓ} (P : A → Type 0) (xs : List A) {x : A} → All P xs → P x → All P (xs ++ (x ∷ []))
All-snoc P [] h p = (p, tt)
All-snoc P (y ∷ xs) (q, h) p = (q, All-snoc P xs h p)

push_work-AreGroups :
    (Fact : Work → Type 0) (id : GroupId) (w : Work) (groups : List (GroupId × List Work))
    → InGroup id w
    → Fact w
    → AreGroups Fact groups
    → AreGroups Fact (push_work id w groups)
unfolding push_work
push_work-AreGroups Fact id w [] i f h = (((i, f), tt), tt)
push_work-AreGroups Fact id w ((other, works) ∷ rest) i f (g, h) =
    elim (Bool-cases (group_beq other id)) [
      | inl same ↦
          let (ids, bps, inclusive) = group_beq_sound other id same in
          let (j, k, l) = i in
          rw same (
            All-snoc (λ v. InGroup other v × Fact v) works g ((ids ∙ j, bps ∙ k, inclusive ∙ l), f),
            h,
          )
      | inr differs ↦ rw differs (g, push_work-AreGroups Fact id w rest i f h)
    ]

count_works-snoc :
    (k : ℕ) (id : Text) (works : List Work) (w : Work)
    → count_works k id (works ++ (w ∷ [])) ≡ count_works k id works + count_works k id (w ∷ [])
count_works-snoc k id [] w = omega arith
count_works-snoc k id (v ∷ works) w = ground (arith, count_works-snoc k id works w)

push_work-count :
    (k : ℕ) (line : Text) (id : GroupId) (w : Work) (groups : List (GroupId × List Work))
    → count_groups k line (push_work id w groups)
      ≡ count_groups k line groups + count_works k line (w ∷ [])
unfolding push_work
push_work-count k line id w [] = omega arith
push_work-count k line id w ((other, works) ∷ rest) = elim (Bool-cases (group_beq other id)) [
  | inl same ↦ rw same (omega (arith, count_works-snoc k line works w))
  | inr differs ↦ rw differs (omega (arith, push_work-count k line id w rest))
]

abbrev pub work_of : TaxComputationPlan → ℤ → ℕ → ApplicableTax → Work
work_of plan base place tax = record {
  line_id = plan.order_line_id;
  currency_code = plan.currency_code;
  base = base;
  sequence = place;
  tax = tax;
}

module _ (Fact : Work → Type 0) (p : ℕ) (plan : TaxComputationPlan) (base : ℤ)
    (taxes : List ApplicableTax)
    (fact : (place : ℕ) (tax : ApplicableTax)
      → IsAt taxes place tax
      → tax.category.cascade_priority ≡ p
      → Fact (work_of plan base place tax)) where
  pub collect_taxes-AreGroups :
      (passed rest : List ApplicableTax) (index : ℕ) (groups : List (GroupId × List Work))
      → taxes ≡ passed ++ rest
      → index ≡ length passed
      → AreGroups Fact groups
      → AreGroups Fact (collect_taxes p plan base index rest groups)
  unfolding collect_taxes
  collect_taxes-AreGroups passed [] index groups split at h = h
  collect_taxes-AreGroups passed (tax ∷ rest) index groups split at h =
      let on =
        collect_taxes-AreGroups (passed ++ (tax ∷ [])) rest (index + 1)
          (if tax.category.cascade_priority == p
            then push_work (group_id plan.currency_code tax.rate)
                (work_of plan base (index + 1) tax) groups
            else groups)
          (split ∙ sym (append_assoc passed (tax ∷ []) rest))
          (omega (arith, at, length-append passed (tax ∷ []))) in
      on (elim (Bool-cases (tax.category.cascade_priority == p)) [
        | inl same ↦ rw same (
            push_work-AreGroups Fact (group_id plan.currency_code tax.rate)
              (work_of plan base (index + 1) tax) groups (refl, refl, refl)
              (fact (index + 1) tax (passed, rest, split, omega (arith, at)) (ground (arith, same)))
              h)
        | inr other ↦ rw other h
      ])

  pub collect_taxes-count :
      (k : ℕ) (line : Text) (rest : List ApplicableTax) (index : ℕ)
      (groups : List (GroupId × List Work))
      → count_groups k line (collect_taxes p plan base index rest groups)
        ≡ count_groups k line groups
          + (if text_beq plan.order_line_id line then count_at p k index rest else 0)
  unfolding collect_taxes
  collect_taxes-count k line [] index groups = ground arith
  collect_taxes-count k line (tax ∷ rest) index groups =
      elim (Bool-cases (tax.category.cascade_priority == p)) [
        | inl same ↦
            let now =
              push_work (group_id plan.currency_code tax.rate) (work_of plan base (index + 1) tax)
                groups in
            rw same (
              collect_taxes-count k line rest (index + 1) now
              ∙ ground (
                arith,
                push_work-count k line (group_id plan.currency_code tax.rate)
                    (work_of plan base (index + 1) tax) groups,
              ))
        | inr other ↦ rw other (collect_taxes-count k line rest (index + 1) groups)
      ]

-- The works of a line are on the base, for its taxes of the priority.
abbrev pub OnLine : Text → List ApplicableTax → ℕ → ℤ → Work → Type 0
OnLine id taxes p base w =
    w.line_id ≡ id
    → (w.base ≡ base) × IsAt taxes w.sequence w.tax × (w.tax.category.cascade_priority ≡ p)
