-- ===== src/Catalog/Rules/Ends.antt =====
-- The walk along the chain of parents ends.
use alpha_shadow.Prelude.{
  ◌≡◌, refl, sym, ap, ◌∙◌, inl, inr, ℕ, zero, suc, ◌≤◌, ◌<◌, Bool, true, false, length, arith,
  if◌then◌else◌, Option, none, some, List, [], ◌∷◌, Text, text_eq, text_beq_iff, text_beq, ◌===◌,
  Bool-cases,
}
use alpha_shadow.Prelude.Assoc.{get, has}
use alpha_shadow.Catalog.Rules.{is_in, parent_or_null, walk_parents, parent_chain_contains}

-- The entries of the map that the walk has not seen.
abbrev unseen : List (Text × Option Text) → List Text → ℕ
unseen [] seen = 0
unseen ((key, parent) ∷ rest) seen =
    let later = unseen rest seen in if is_in key seen then later else suc later

unseen-length : (m : List (Text × Option Text)) (seen : List Text) → unseen m seen ≤ length m
unseen-length [] seen = omega arith
unseen-length ((key, parent) ∷ rest) seen = ground (arith, unseen-length rest seen)

unseen-grows :
    (m : List (Text × Option Text)) (seen : List Text) (id : Text)
    → unseen m (id ∷ seen) ≤ unseen m seen
unseen-grows [] seen id = omega arith
unseen-grows ((key, parent) ∷ rest) seen id = ground (arith, unseen-grows rest seen id)

is_in-same : (a b : Text) (seen : List Text) → a ≡ b → is_in a seen ≡ is_in b seen
is_in-same a b seen h = ap (λ x. is_in x seen) h

unseen-less :
    (m : List (Text × Option Text)) (seen : List Text) (id : Text)
    → has id m ≡ true
    → is_in id seen ≡ false
    → unseen m (id ∷ seen) < unseen m seen
unfolding has
unseen-less [] seen id h new = cc
unseen-less ((key, parent) ∷ rest) seen id h new = elim (Bool-cases (key === id)) [
  | inl same ↦
      let found : is_in key seen ≡ false =
        is_in-same key id seen ((text_beq_iff key id).0 same) ∙ new in
      let turned : text_beq id key ≡ true =
        (text_beq_iff id key).1 (sym ((text_beq_iff key id).0 same)) in
      ground (arith, unseen-grows rest seen id, found, turned)
  | inr other ↦ ground (arith, unseen-less rest seen id, unseen-grows rest seen id, other)
]

-- More rounds than unseen entries, and one, are enough.
walk_parents-ends :
    (fuel : ℕ) (category : Text) (m : List (Text × Option Text)) (seen : List Text)
    (cursor : Option Text)
    → unseen m seen < fuel
    → (answer : Bool) × (walk_parents fuel category m seen cursor ≡ some answer)
unfolding walk_parents
walk_parents-ends zero category m seen cursor h = absurd (omega arith)
walk_parents-ends (suc fuel) category m seen none h = (false, refl)
walk_parents-ends (suc fuel) category m seen (some id) h =
    let later = walk_parents fuel category m (id ∷ seen) (parent_or_null (get id m)) in
    elim (Bool-cases (id === category)) [
      | inl same ↦ (true, rw same refl)
      | inr other ↦ elim (Bool-cases (is_in id seen)) [
        | inl again ↦ (true, rw (other, again) refl)
        | inr new ↦ elim (Bool-cases (has id m)) [
          | inr unknown ↦ (false, rw (other, new, unknown) refl)
          | inl known ↦
              let (answer, ended) =
                walk_parents-ends fuel category m (id ∷ seen) (parent_or_null (get id m))
                  (omega (arith, unseen-less m seen id known new, h)) in
              (answer, rw (other, new, known) ended)
        ]
      ]
    ]

-- The walk along the parents ends, whatever the map of parents is: also one with a cycle.
pub parent_chain_contains-ends :
    (category : Text) (start : Option Text) (parents : List (Text × Option Text))
    → (answer : Bool) × (parent_chain_contains category start parents ≡ some answer)
unfolding parent_chain_contains
parent_chain_contains-ends category start parents =
    walk_parents-ends (suc (suc (length parents))) category parents [] start
      (omega (arith, unseen-length parents []))
