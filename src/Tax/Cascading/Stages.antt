-- ===== src/Tax/Cascading/Stages.antt =====
-- What one priority of a cascade adds to the rows and to the total of one line.
use mathlib.Core.Path.{subst}
use mathlib.Core.List.{append_assoc}
use alpha_shadow.Prelude.{
  ℕ, ◌+◌, ◌≡◌, refl, sym, ap, ◌∙◌, Bool, true, false, ◌||◌, arith, if◌then◌else◌, inl, inr,
  Bool-cases, ℤ, pos, negsuc, ◌+ℤ◌, Option, none, some, All, All-append, List, [], ◌∷◌, ◌++◌, Text,
  text_eq, text_beq, text_beq_iff, sum_of, sum_of-append,
}
use alpha_shadow.Prelude.Assoc.{get, has, put, get-put}
use alpha_shadow.Tax.Rules.{TaxRate, ResolvedTaxLine}
use alpha_shadow.Tax.Cascading.{
  Work, or_zero_minor, Progress, resolved_line, push_row, record_tax, advance,
}

-- What a row adds to the bases of higher priorities: its tax, unless the price includes it.
abbrev pub exclusive_amount : ResolvedTaxLine → ℕ
exclusive_amount row = if row.is_price_inclusive then 0 else row.tax_amount_minor

abbrev pub total_at : Text → List (Text × ℤ) → ℤ
total_at id totals = or_zero_minor (get id totals)

-- No key of the map stands twice.
abbrev pub DistinctKeys : List (Text × ℤ) → Type 0
DistinctKeys [] = Unit
DistinctKeys ((k, v) ∷ m) = (has k m ≡ false) × DistinctKeys m

has-put : (k j : Text) (v : ℤ) (m : List (Text × ℤ)) → has j (put k v m) ≡ text_beq k j || has j m
unfolding has put
has-put k j v [] = refl
has-put k j v ((i, w) ∷ m) = elim (Bool-cases (text_beq i k)) [
  | inl same ↦
      let e = (text_beq_iff i k).0 same in rw same (ground (arith, ap (λ x. text_beq x j) e))
  | inr other ↦ rw other (ap (λ b. text_beq i j || b) (has-put k j v m) ∙ ground arith)
]

DistinctKeys-put :
    (k : Text) (v : ℤ) (m : List (Text × ℤ)) → DistinctKeys m → DistinctKeys (put k v m)
unfolding put has
DistinctKeys-put k v [] h = (refl, tt)
DistinctKeys-put k v ((j, w) ∷ m) (new, h) = elim (Bool-cases (text_beq j k)) [
  | inl same ↦ rw same (new, h)
  | inr other ↦
      let turned : text_beq k j ≡ false =
        ground (arith, other, text_beq_iff j k, text_beq_iff k j) in
      rw other (has-put k j v m ∙ ground (arith, turned, new), DistinctKeys-put k v m h)
]

get-absent : (k : Text) (m : List (Text × ℤ)) → has k m ≡ false → get k m ≡ none
unfolding get has
get-absent k [] h = refl
get-absent k ((j, v) ∷ m) h = ground (arith, get-absent k m)

add_zero : (n : ℤ) → n +ℤ pos 0 ≡ n
unfolding ◌+ℤ◌
add_zero (pos n) = ground arith
add_zero (negsuc n) = ground arith

total_at-put :
    (k id : Text) (v : ℤ) (m : List (Text × ℤ))
    → total_at id (put k v m) ≡ (if text_beq k id then v else total_at id m)
total_at-put k id v m = ap or_zero_minor (get-put k id v m) ∙ chosen (text_beq k id)
  where
    chosen :
        (b : Bool)
        → or_zero_minor (if b then some v else get id m) ≡ (if b then v else total_at id m)
    chosen true = refl
    chosen false = refl

-- The totals that are gathered at a priority are added to those before.
pub total_at-advance :
    (id : Text) (gathered totals : List (Text × ℤ))
    → DistinctKeys gathered
    → total_at id (advance gathered totals) ≡ total_at id totals +ℤ total_at id gathered
unfolding advance get
total_at-advance id [] totals h = sym (add_zero (total_at id totals))
total_at-advance id ((k, s) ∷ rest) totals (new, h) =
    let rec =
      total_at-advance id rest (put k (or_zero_minor (get k totals) +ℤ s) totals) h
      ∙ ap (λ t. t +ℤ total_at id rest) (total_at-put k id _ totals) in
    elim (Bool-cases (text_beq k id)) [
      | inl same ↦
          let e = (text_beq_iff k id).0 same in
          let absent = get-absent id rest (ap (λ x. has x rest) (sym e) ∙ new) in
          rw same (
            rec
            ∙ ap
                (λ b.
                  (if b then or_zero_minor (get k totals) +ℤ s else total_at id totals)
                  +ℤ total_at id rest)
                same
            ∙ ap (λ o. total_at k totals +ℤ s +ℤ or_zero_minor o) absent
            ∙ add_zero (total_at k totals +ℤ s)
            ∙ ap (λ x. total_at x totals +ℤ s) e)
      | inr other ↦ rw other (
          rec
          ∙ ap
              (λ b.
                (if b then or_zero_minor (get k totals) +ℤ s else total_at id totals)
                +ℤ total_at id rest)
              other)
    ]

get-push_row :
    (id : Text) (row : ResolvedTaxLine) (m : List (Text × List ResolvedTaxLine))
    {rows : List ResolvedTaxLine}
    → get id m ≡ some rows
    → get id (push_row id row m) ≡ some (rows ++ (row ∷ []))
unfolding get push_row
get-push_row id row [] h = cc
get-push_row id row ((j, rs) ∷ m) h = elim (Bool-cases (text_beq j id)) [
  | inl same ↦
      let e = ap (λ b. if b then some rs else get id m) (sym same) ∙ h in
      rw same (rw same (ap (λ o. with_row o) e))
  | inr other ↦
      rw other (
        rw other
          (get-push_row id row m (ap (λ b. if b then some rs else get id m) (sym other) ∙ h)))
]
  where
    with_row : Option (List ResolvedTaxLine) → Option (List ResolvedTaxLine)
    with_row none = none
    with_row (some rs) = some (rs ++ (row ∷ []))

get-push_row-other :
    (k id : Text) (row : ResolvedTaxLine) (m : List (Text × List ResolvedTaxLine))
    → text_beq k id ≡ false
    → get id (push_row k row m) ≡ get id m
unfolding get push_row
get-push_row-other k id row [] h = refl
get-push_row-other k id row ((j, rs) ∷ m) h = elim (Bool-cases (text_beq j k)) [
  | inl same ↦
      let apart : text_beq j id ≡ false = ap (λ x. text_beq x id) ((text_beq_iff j k).0 same) ∙ h in
      rw same (rw apart refl)
  | inr other ↦
      rw other (ap (λ o. if text_beq j id then some rs else o) (get-push_row-other k id row m h))
]

-- The rows that a line has got since a priority was begun, and their total.
pub record InStage (id : Text) (Good : ResolvedTaxLine → Type 0) (before : List ResolvedTaxLine)
    (state : Progress) (new : List ResolvedTaxLine) : Type 0 where
  pub rows : get id state.rows ≡ some (before ++ new)
  pub gathered : total_at id state.gathered ≡ pos (sum_of exclusive_amount new)
  pub distinct : DistinctKeys state.gathered
  pub good : All Good new

pub pos_sum : (a b : ℕ) → pos a +ℤ pos b ≡ pos (a + b)
unfolding ◌+ℤ◌
pos_sum a b = ground arith

sum_of-inclusive :
    (new : List ResolvedTaxLine) (row : ResolvedTaxLine)
    → row.is_price_inclusive ≡ true
    → sum_of exclusive_amount new ≡ sum_of exclusive_amount (new ++ (row ∷ []))
sum_of-inclusive new row h =
    let none_added = ap (λ b. if b then 0 else row.tax_amount_minor) h in
    omega (arith, sum_of-append exclusive_amount new (row ∷ []), none_added)

sum_of-exclusive :
    (new : List ResolvedTaxLine) (row : ResolvedTaxLine)
    → row.is_price_inclusive ≡ false
    → sum_of exclusive_amount new + row.tax_amount_minor
      ≡ sum_of exclusive_amount (new ++ (row ∷ []))
sum_of-exclusive new row h =
    let added = ap (λ b. if b then 0 else row.tax_amount_minor) h in
    omega (arith, sum_of-append exclusive_amount new (row ∷ []), added)

gathered_after : TaxRate → Work → ℕ → List (Text × ℤ) → List (Text × ℤ)
gathered_after rate work tax gathered =
    if rate.is_price_inclusive_default
    then gathered
    else put work.line_id (total_at work.line_id gathered +ℤ pos tax) gathered

module _ (id : Text) (Good : ResolvedTaxLine → Type 0) (before : List ResolvedTaxLine)
    (rate : TaxRate) (work : Work) (tax : ℕ) (state : Progress) {new : List ResolvedTaxLine}
    (h : InStage id Good before state new) where
  distinct_after : DistinctKeys (gathered_after rate work tax state.gathered)
  unfolding gathered_after
  distinct_after = elim (Bool-cases rate.is_price_inclusive_default) [
    | inl inclusive ↦ rw inclusive h.distinct
    | inr exclusive ↦ rw exclusive (DistinctKeys-put work.line_id _ state.gathered h.distinct)
  ]

  -- A tax of the line itself.
  pub record_tax-on :
      work.line_id ≡ id
      → Good (resolved_line rate work tax)
      → InStage id Good before
          (record_tax rate work tax state)
          (new ++ (resolved_line rate work tax ∷ []))
  unfolding record_tax gathered_after resolved_line
  record_tax-on same good =
      let row = resolved_line rate work tax in
      let beq = (text_beq_iff work.line_id id).1 same in
      let chosen : Bool → ℤ = λ b. total_at id (
        if b
        then state.gathered
        else put work.line_id (total_at work.line_id state.gathered +ℤ pos tax) state.gathered) in
      record {
        rows =
            subst (λ k. get id (push_row k row state.rows) ≡ some (before ++ (new ++ (row ∷ []))))
              (sym same)
              (get-push_row id row state.rows h.rows
                ∙ ap some (append_assoc before new (row ∷ [])));
        gathered = elim (Bool-cases rate.is_price_inclusive_default) [
          | inl inclusive ↦
              ap chosen inclusive ∙ h.gathered ∙ ap pos (sum_of-inclusive new row inclusive)
          | inr exclusive ↦
              ap chosen exclusive
              ∙ total_at-put work.line_id id _ state.gathered
              ∙ ap
                  (λ b.
                    if b
                    then total_at work.line_id state.gathered +ℤ pos tax
                    else total_at id state.gathered)
                  beq
              ∙ ap (λ k. total_at k state.gathered +ℤ pos tax) same
              ∙ ap (λ t. t +ℤ pos tax) h.gathered
              ∙ pos_sum (sum_of exclusive_amount new) tax
              ∙ ap pos (sum_of-exclusive new row exclusive)
        ];
        distinct = distinct_after;
        good = All-append Good new (row ∷ []) h.good (good, tt);
      }

  -- A tax of another line.
  pub record_tax-off :
      text_beq work.line_id id ≡ false → InStage id Good before (record_tax rate work tax state) new
  unfolding record_tax gathered_after
  record_tax-off other = record {
    rows =
        get-push_row-other work.line_id id (resolved_line rate work tax) state.rows other ∙ h.rows;
    gathered = elim (Bool-cases rate.is_price_inclusive_default) [
      | inl inclusive ↦ rw inclusive h.gathered
      | inr exclusive ↦ rw exclusive (
          total_at-put work.line_id id _ state.gathered
          ∙ ap
              (λ b.
                if b
                then total_at work.line_id state.gathered +ℤ pos tax
                else total_at id state.gathered)
              other
          ∙ h.gathered)
    ];
    distinct = distinct_after;
    good = h.good;
  }
