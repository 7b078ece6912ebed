-- ===== src/Catalog/Rules/Ancestry.antt =====
-- What the answer of the walk along the chain of parents says.
use mathlib.Core.Path.{subst}
use alpha_shadow.Prelude.{
  ◌≡◌, refl, sym, ap, ◌∙◌, ◌⊎◌, inl, inr, ℕ, zero, suc, Bool, true, false, ◌||◌, if◌then◌else◌,
  Option, none, some, List, [], ◌∷◌, Text, text_eq, text_beq_iff, ◌===◌, Bool-cases, All, All-map,
  ◌↔◌, Option-cases,
}
use alpha_shadow.Prelude.Assoc.{get, has, has-get}
use alpha_shadow.Catalog.Rules.Ends.{parent_chain_contains-ends}
use alpha_shadow.Catalog.Rules.{is_in, parent_or_null, walk_parents, parent_chain_contains}

-- `b` is the parent of `a`, and `b` is `a` or an ancestor of it.
abbrev pub IsParent : List (Text × Option Text) → Text → Text → Type 0
IsParent m a b = get a m ≡ some (some b)

pub data Ancestor (m : List (Text × Option Text)) : Text → Text → Type 0 where
  itself : {a : Text} → Ancestor m a a
  above : {a b c : Text} → Ancestor m a b → IsParent m b c → Ancestor m a c

parent_of : (o : Option (Option Text)) {b : Text} → parent_or_null o ≡ some b → o ≡ some (some b)
parent_of none h = cc
parent_of (some none) h = cc
parent_of (some (some b)) h = ap some h

-- Above the start there is a cycle.
abbrev pub HasCycle : List (Text × Option Text) → Text → Type 0
HasCycle m start = (a : Text) × (b : Text) × Ancestor m start a × IsParent m a b × Ancestor m b a

first_step :
    {m : List (Text × Option Text)} {a c : Text}
    → Ancestor m a c
    → (a ≡ c) ⊎ ((b : Text) × IsParent m a b × Ancestor m b c)
first_step itself = inl refl
first_step {m} (above {a} {b} {c} path last) = elim (first_step path) [
  | inl same ↦ inr (c, ap (λ x. get x m) same ∙ last, itself)
  | inr (d, first, rest) ↦ inr (d, first, above rest last)
]

abbrev round_answer : Bool → Bool → Bool → Option Bool → Option Bool
round_answer is_category again known later =
    if is_category
    then some true
    else if again
    then some true
    else if known
    then later
    else some false

-- The ways in which a round answers.
abbrev Round : Bool → Bool → Bool → Option Bool → Bool → Type 0
Round is_category again known later answer =
    ((is_category ≡ true) × (answer ≡ true))
    ⊎ (((again ≡ true) × (answer ≡ true))
        ⊎ ((is_category ≡ false)
            × (((known ≡ true) × (later ≡ some answer)) ⊎ ((known ≡ false) × (answer ≡ false)))))

answer-of : {a b : Bool} → some a ≡ some b → b ≡ a
answer-of h = cc

round_answer-Round :
    (is_category again known : Bool) (later : Option Bool) {answer : Bool}
    → round_answer is_category again known later ≡ some answer
    → Round is_category again known later answer
round_answer-Round true again known later h = inl (refl, answer-of h)
round_answer-Round false true known later h = inr (inl (refl, answer-of h))
round_answer-Round false false true later h = inr (inr (refl, inl (refl, h)))
round_answer-Round false false false later h = inr (inr (refl, inr (refl, answer-of h)))

walk_parents-Round :
    (fuel : ℕ) (category : Text) (m : List (Text × Option Text)) (seen : List Text) (id : Text)
    {answer : Bool}
    → walk_parents (suc fuel) category m seen (some id) ≡ some answer
    → Round
        (id === category)
        (is_in id seen)
        (has id m)
        (walk_parents fuel category m (id ∷ seen) (parent_or_null (get id m)))
        answer
unfolding walk_parents
walk_parents-Round fuel category m seen id h =
    round_answer-Round (id === category) (is_in id seen) (has id m) _ h

none-not-some : {A : Type 0} {a : A} → none ≡ some a → ⊥
none-not-some h = cc

some-id : {a b : Text} → some a ≡ some b → a ≡ b
some-id h = cc

false-not-true : false ≡ true → ⊥
false-not-true h = cc

-- A walk that answers no has not met the category.
walk_parents-false :
    (fuel : ℕ) (category : Text) (m : List (Text × Option Text)) (seen : List Text)
    (cursor : Option Text) (id : Text)
    → walk_parents fuel category m seen cursor ≡ some false
    → cursor ≡ some id
    → Ancestor m id category
    → ⊥
unfolding walk_parents
walk_parents-false zero category m seen cursor id h at path = cc
walk_parents-false (suc fuel) category m seen none id h at path = cc
walk_parents-false (suc fuel) category m seen (some j) id h at path =
    elim (walk_parents-Round fuel category m seen j h) [
      | inl (_, wrong) ↦ false-not-true wrong
      | inr (inl (_, wrong)) ↦ false-not-true wrong
      | inr (inr (other, rest)) ↦
          elim (first_step (subst (λ x. Ancestor m x category) (sym (some-id at)) path)) [
            | inl same ↦ false-not-true (sym other ∙ (text_beq_iff j category).1 same)
            | inr (next, parent, above_next) ↦ elim rest [
              | inl (known, later) ↦
                  walk_parents-false fuel category m (j ∷ seen) (parent_or_null (get j m)) next
                    later (ap parent_or_null parent) above_next
              | inr (unknown, _) ↦ false-not-true (sym unknown ∙ has-get j m (some next) parent)
            ]
          ]
    ]

All-in :
    (P : Text → Type 0) (id : Text) (seen : List Text) → All P seen → is_in id seen ≡ true → P id
All-in P id [] h e = cc
All-in P id (x ∷ rest) (p, h) e = elim (Bool-cases (x === id)) [
  | inl same ↦ subst P ((text_beq_iff x id).0 same) p
  | inr other ↦ All-in P id rest h (ap (λ b. b || is_in id rest) (sym other) ∙ e)
]

-- What the walk from `start` knows of an id that it has seen before it came to `cursor`.
abbrev Passed : List (Text × Option Text) → Text → Text → Text → Type 0
Passed m start cursor x = Ancestor m start x × (b : Text) × IsParent m x b × Ancestor m b cursor

Passed-on :
    (m : List (Text × Option Text)) (start id next : Text) (seen : List Text)
    → Ancestor m start id
    → IsParent m id next
    → All (Passed m start id) seen
    → All (Passed m start next) (id ∷ seen)
Passed-on m start id next seen path parent passed = (
  (path, next, parent, itself),
  All-map (Passed m start id) (Passed m start next) seen
      (λ x (up, b, first, rest). (up, b, first, above rest parent)) passed,
)

-- A walk that answers yes has met the category, or an id twice.
walk_parents-true :
    (fuel : ℕ) (category : Text) (m : List (Text × Option Text)) (seen : List Text)
    (cursor : Option Text) (start : Text)
    → walk_parents fuel category m seen cursor ≡ some true
    → ((id : Text) → cursor ≡ some id → Ancestor m start id × All (Passed m start id) seen)
    → Ancestor m start category ⊎ HasCycle m start
unfolding walk_parents
walk_parents-true zero category m seen cursor start h known_so_far = cc
walk_parents-true (suc fuel) category m seen none start h known_so_far = cc
walk_parents-true (suc fuel) category m seen (some id) start h known_so_far =
    let (path, passed) = known_so_far id refl in
    elim (walk_parents-Round fuel category m seen id h) [
      | inl (same, _) ↦
          inl (subst (λ x. Ancestor m start x) ((text_beq_iff id category).0 same) path)
      | inr (inl (again, _)) ↦
          let (up, b, first, rest) = All-in (Passed m start id) id seen passed again in
          inr (id, b, path, first, rest)
      | inr (inr (other, inl (known, later))) ↦
          walk_parents-true fuel category m (id ∷ seen) (parent_or_null (get id m)) start later
            (λ next at.
              let parent = parent_of (get id m) at in
              (above path parent, Passed-on m start id next seen path parent passed))
      | inr (inr (other, inr (unknown, wrong))) ↦ absurd (false-not-true (sym wrong))
    ]

-- The chain above an id that comes to an end.
data EndsAt (m : List (Text × Option Text)) : Text → Type 0 where
  at_top : {a : Text} → ((b : Text) → ¬ IsParent m a b) → EndsAt m a
  below : {a b : Text} → IsParent m a b → EndsAt m b → EndsAt m a

only_parent :
    (m : List (Text × Option Text)) (a : Text) {b c : Text}
    → IsParent m a b
    → IsParent m a c
    → b ≡ c
only_parent m a h k = some-id (some-parent (sym h ∙ k))
  where
    some-parent : {p q : Option Text} → some p ≡ some q → p ≡ q
    some-parent e = cc

EndsAt-IsParent :
    {m : List (Text × Option Text)} {a b : Text} → EndsAt m a → IsParent m a b → EndsAt m b
EndsAt-IsParent (at_top none_above) h = absurd (none_above _ h)
EndsAt-IsParent {m} {a} (below up ends) h = subst (EndsAt m) (only_parent m a up h) ends

EndsAt-Ancestor :
    {m : List (Text × Option Text)} {a b : Text} → EndsAt m a → Ancestor m a b → EndsAt m b
EndsAt-Ancestor ends itself = ends
EndsAt-Ancestor ends (above path last) = EndsAt-IsParent (EndsAt-Ancestor ends path) last

-- A chain that ends has no cycle.
EndsAt-acyclic :
    {m : List (Text × Option Text)} {a b : Text} → EndsAt m a → IsParent m a b → Ancestor m b a → ⊥
EndsAt-acyclic (at_top none_above) h back = none_above _ h
EndsAt-acyclic {m} {a} {b} (below up ends) h back =
    elim (first_step (subst (λ x. Ancestor m x a) (only_parent m a h up) back)) [
      | inl same ↦ EndsAt-acyclic ends (ap (λ x. get x m) same ∙ up) itself
      | inr (d, first, rest) ↦ EndsAt-acyclic ends first (above rest up)
    ]

-- A walk that answers no comes to an end.
walk_parents-EndsAt :
    (fuel : ℕ) (category : Text) (m : List (Text × Option Text)) (seen : List Text) (id : Text)
    → walk_parents fuel category m seen (some id) ≡ some false
    → EndsAt m id
unfolding walk_parents
walk_parents-EndsAt zero category m seen id h = cc
walk_parents-EndsAt (suc fuel) category m seen id h =
    elim (walk_parents-Round fuel category m seen id h) [
      | inl (_, wrong) ↦ absurd (false-not-true wrong)
      | inr (inl (_, wrong)) ↦ absurd (false-not-true wrong)
      | inr (inr (other, inl (known, later))) ↦ elim (Option-cases (parent_or_null (get id m))) [
        | inl top ↦ at_top (λ b up. none-not-some (sym top ∙ ap parent_or_null up))
        | inr (next, up) ↦ below (parent_of (get id m) up) (
            walk_parents-EndsAt fuel category m (id ∷ seen) next
              (ap (walk_parents fuel category m (id ∷ seen)) (sym up) ∙ later))
      ]
      | inr (inr (other, inr (unknown, _))) ↦
          at_top (λ b up. false-not-true (sym unknown ∙ has-get id m (some b) up))
    ]

-- The category is the given parent or an ancestor of it, or the chain has a cycle.
abbrev pub IsContained : List (Text × Option Text) → Text → Text → Type 0
IsContained m start category = Ancestor m start category ⊎ HasCycle m start

walk-contains :
    (category start : Text) (parents : List (Text × Option Text))
    → parent_chain_contains category (some start) parents ≡ some true
    → IsContained parents start category
unfolding parent_chain_contains
walk-contains category start parents met =
    walk_parents-true _ category parents [] (some start) start met
      (λ id at. (subst (λ x. Ancestor parents start x) (some-id at) itself, tt))

walk-misses :
    (category start : Text) (parents : List (Text × Option Text))
    → parent_chain_contains category (some start) parents ≡ some false
    → ¬ IsContained parents start category
unfolding parent_chain_contains
walk-misses category start parents missed (inl path) =
    walk_parents-false _ category parents [] (some start) start missed refl path
walk-misses category start parents missed (inr (a, b, path, up, back)) =
    EndsAt-acyclic (EndsAt-Ancestor (walk_parents-EndsAt _ category parents [] start missed) path)
      up back

-- The parent chain of a category contains it exactly when the category is the given parent or an
-- ancestor of it, or the chain has a cycle; it does not exactly when neither holds.
pub parent_chain_contains_lem :
    (category start : Text) (parents : List (Text × Option Text))
    → ((parent_chain_contains category (some start) parents ≡ some true)
        ↔ IsContained parents start category)
      × ((parent_chain_contains category (some start) parents ≡ some false)
          ↔ (¬ IsContained parents start category))
parent_chain_contains_lem category start parents =
    let (answer, ended) = parent_chain_contains-ends category (some start) parents in
    let met = walk-contains category start parents in
    let missed = walk-misses category start parents in decided answer ended met missed
  where
    decided :
        {C : Type 0} {o : Option Bool}
        → (answer : Bool) → o ≡ some answer
        → (o ≡ some true → C)
        → (o ≡ some false → ¬ C)
        → ((o ≡ some true) ↔ C) × ((o ≡ some false) ↔ (¬ C))
    decided true ended met missed = ((met, λ c. ended), (missed, λ no. absurd (no (met ended))))
    decided false ended met missed = ((met, λ c. absurd (missed ended c)), (missed, λ no. ended))
