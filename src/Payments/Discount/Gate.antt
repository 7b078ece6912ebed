-- ===== src/Payments/Discount/Gate.antt =====
-- When the cap gate lets a discount through without a manager's override.
use alpha_shadow.Prelude.{
  ℕ, zero, suc, ◌≡◌, ◌≢◌, refl, sym, ap, ◌∙◌, Bool, true, false, arith, if◌then◌else◌, inl, inr,
  Bool-cases, ◌↔◌, Option, none, some, ℤ, pos, ◌+ℤ◌, ◌*ℤ◌, ◌≤ℤ◌, ◌<ℤ◌, ltb_ℤ, leb_ℤ, ok,
  ok-injective,
}
use alpha_shadow.Money.Rounding.{
  divide_round_half_to_even, IsHalfEven, divide_round_half_to_even-IsHalfEven,
}
use alpha_shadow.Payments.Discount.{
  both, zeroes_out, DiscountKind, percentage, fixed_amount, dbps_per_percent, ParsedDiscountRequest,
  ParsedDiscountCaps, DiscountStageComputation, or_zero, exceeds, matching_exceeded, fixed_cross,
  cross_exceeded, cap_requirement, OverrideRequirement, discount_override_requirement,
}
use alpha_shadow.Payments.Discount.Stage.{IsStage, nonneg}

-- At most the cap, if there is one.
abbrev pub Within : ℤ → Option ℤ → Type 0
Within value none = Unit
Within value (some cap) = value ≤ℤ cap

-- At most the cap as a share of the basis: the nearest integer to value * 10^6 / basis.
abbrev pub ShareWithin : ℤ → ℤ → Option ℤ → Type 0
ShareWithin value basis none = Unit
ShareWithin value basis (some cap) =
    (q : ℤ) × (divide_round_half_to_even (value *ℤ dbps_per_percent) basis ≡ ok q)
    × IsHalfEven (value *ℤ dbps_per_percent) basis q
    × (q ≤ℤ cap)

-- Both caps, in the dimension of the request and as its equivalent in the other one.
abbrev pub WithinCaps :
    DiscountKind
    → ℤ
    → DiscountStageComputation
    → ParsedDiscountRequest
    → ParsedDiscountCaps
    → Type 0
WithinCaps percentage basis stage request caps =
    Within (or_zero request.percent_dbps) caps.max_percent_dbps
    × Within stage.requested_minor caps.max_fixed_amount_minor
WithinCaps fixed_amount basis stage request caps =
    Within (or_zero request.fixed_amount_minor) caps.max_fixed_amount_minor
    × ShareWithin (or_zero request.fixed_amount_minor) basis caps.max_percent_dbps

exceeds-false : (v : ℤ) (cap : Option ℤ) → exceeds v cap ≡ false → Within v cap
exceeds-false v none h = tt
exceeds-false v (some c) h = ground arith

fixed_cross-false :
    (basis amount : ℤ) (cap : Option ℤ)
    → basis ≢ pos 0
    → fixed_cross basis amount cap ≡ ok false
    → ShareWithin amount basis cap
unfolding fixed_cross
fixed_cross-false basis amount none ne h = tt
fixed_cross-false basis amount (some cap) ne h =
    let (q, e, is) = divide_round_half_to_even-IsHalfEven (amount *ℤ dbps_per_percent) basis ne in
    let k : (ok (ltb_ℤ cap q)) ≡ ok false = rw e at h in
    (q, e, is, let b : ltb_ℤ cap q ≡ false = ok-injective k in ground arith)

-- The gate's cross check is total on a basis other than 0.
cross_exceeded_total :
    (kind : DiscountKind) (basis : ℤ) (stage : DiscountStageComputation)
    (request : ParsedDiscountRequest) (caps : ParsedDiscountCaps)
    → basis ≢ pos 0
    → (b : Bool) × (cross_exceeded kind basis stage request caps ≡ ok b)
unfolding cross_exceeded
cross_exceeded_total percentage basis stage request caps ne = (_, refl)
cross_exceeded_total fixed_amount basis stage request caps ne = fixed caps.max_percent_dbps
  where
    fixed :
        (cap : Option ℤ)
        → (b : Bool) × (fixed_cross basis (or_zero request.fixed_amount_minor) cap ≡ ok b)
    fixed none = (false, refl)
    fixed (some cap) =
        let (q, e, _) =
          divide_round_half_to_even-IsHalfEven
            (or_zero request.fixed_amount_minor *ℤ dbps_per_percent) basis ne in
        (ltb_ℤ cap q, rw e)

caps-within :
    (kind : DiscountKind) (basis : ℤ) (stage : DiscountStageComputation)
    (request : ParsedDiscountRequest) (caps : ParsedDiscountCaps)
    → basis ≢ pos 0
    → matching_exceeded kind request caps ≡ false
    → cross_exceeded kind basis stage request caps ≡ ok false
    → WithinCaps kind basis stage request caps
unfolding matching_exceeded cross_exceeded
caps-within percentage basis stage request caps ne m c = (
  exceeds-false (or_zero request.percent_dbps) caps.max_percent_dbps m,
  exceeds-false stage.requested_minor caps.max_fixed_amount_minor (ok-injective c),
)
caps-within fixed_amount basis stage request caps ne m c = (
  exceeds-false (or_zero request.fixed_amount_minor) caps.max_fixed_amount_minor m,
  fixed_cross-false basis (or_zero request.fixed_amount_minor) caps.max_percent_dbps ne c,
)

exceeds-Within : (v : ℤ) (cap : Option ℤ) → Within v cap → exceeds v cap ≡ false
exceeds-Within v none h = refl
exceeds-Within v (some c) h = ground arith

fixed_cross-ShareWithin :
    (basis amount : ℤ) (cap : Option ℤ)
    → ShareWithin amount basis cap
    → fixed_cross basis amount cap ≡ ok false
unfolding fixed_cross
fixed_cross-ShareWithin basis amount none h = refl
fixed_cross-ShareWithin basis amount (some cap) (q, e, is, le) =
    rw e (ap ok (let b : ltb_ℤ cap q ≡ false = ground arith in b))

within-caps :
    (kind : DiscountKind) (basis : ℤ) (stage : DiscountStageComputation)
    (request : ParsedDiscountRequest) (caps : ParsedDiscountCaps)
    → WithinCaps kind basis stage request caps
    → (matching_exceeded kind request caps ≡ false)
      × (cross_exceeded kind basis stage request caps ≡ ok false)
unfolding matching_exceeded cross_exceeded
within-caps percentage basis stage request caps (m, c) = (
  exceeds-Within (or_zero request.percent_dbps) caps.max_percent_dbps m,
  ap ok (exceeds-Within stage.requested_minor caps.max_fixed_amount_minor c),
)
within-caps fixed_amount basis stage request caps (m, c) = (
  exceeds-Within (or_zero request.fixed_amount_minor) caps.max_fixed_amount_minor m,
  fixed_cross-ShareWithin basis (or_zero request.fixed_amount_minor) caps.max_percent_dbps c,
)

-- The gate on a stage that leaves something, by what its two cap checks say.
positive : (a : ℤ) → pos 0 <ℤ a → leb_ℤ a (pos 0) ≡ false
positive a h = ground arith

gate_open :
    (stage : DiscountStageComputation) (request : ParsedDiscountRequest) (caps : ParsedDiscountCaps)
    (b : Bool)
    → stage.zeroes_out_subtotal ≡ false
    → pos 0 <ℤ stage.applied_minor +ℤ stage.remaining_subtotal_minor
    → cross_exceeded request.kind
        (stage.applied_minor +ℤ stage.remaining_subtotal_minor)
        stage
        request
        caps
      ≡ ok b
    → discount_override_requirement stage request caps
      ≡ ok (cap_requirement (matching_exceeded request.kind request caps) b)
unfolding discount_override_requirement
gate_open stage request caps b z p c =
    rw (c, z, positive (stage.applied_minor +ℤ stage.remaining_subtotal_minor) p)

gate_zeroes :
    (stage : DiscountStageComputation) (request : ParsedDiscountRequest) (caps : ParsedDiscountCaps)
    → stage.zeroes_out_subtotal ≡ true
    → (r : OverrideRequirement) × (discount_override_requirement stage request caps ≡ ok r)
      × (r.required ≡ true)
unfolding discount_override_requirement
gate_zeroes stage request caps z = (
  record {
    required = true;
    reason = some (if matching_exceeded request.kind request caps then both else zeroes_out);
  },
  rw z,
  refl,
)

cap_requirement-false :
    (m c : Bool) → (cap_requirement m c).required ≡ false → (m ≡ false) × (c ≡ false)
unfolding cap_requirement
cap_requirement-false m c h = ground arith

abbrev pub not_required : OverrideRequirement
not_required = record { required = false; reason = none }

-- The condition for passing without an override, over the subtotal `n` that the stage discounts.
abbrev pub PassesGate :
    ℕ → DiscountStageComputation → ParsedDiscountRequest → ParsedDiscountCaps → Type 0
PassesGate n stage request caps =
    (pos 0 <ℤ stage.remaining_subtotal_minor) × WithinCaps request.kind (pos n) stage request caps

module _ (n : ℕ) (stage : DiscountStageComputation) (request : ParsedDiscountRequest)
    (caps : ParsedDiscountCaps) (is : IsStage (pos (suc n)) stage) where
  -- A stage that leaves nothing has its flag set.
  leaves_nothing : stage.zeroes_out_subtotal ≡ false → pos 0 <ℤ stage.remaining_subtotal_minor
  leaves_nothing z = let (k, e) = nonneg stage.remaining_subtotal_minor is.rest_nonneg in go k e
    where
      go :
          (k : ℕ) → stage.remaining_subtotal_minor ≡ pos k → pos 0 <ℤ stage.remaining_subtotal_minor
      go zero e = absurd (cc (is.zeroes.1 e))
      go (suc k) e = rw e (omega arith)

  pub unrequired :
      (q : OverrideRequirement)
      → discount_override_requirement stage request caps ≡ ok q
      → q.required ≡ false
      → pos 0 <ℤ stage.remaining_subtotal_minor
  unrequired q e f = elim (Bool-cases stage.zeroes_out_subtotal) [
    | inl z ↦
        let (r, g, required) = gate_zeroes stage request caps z in
        let same : r ≡ q = ok-injective (sym g ∙ e) in
        absurd (cc (ap (λ (x : OverrideRequirement). x.required) same))
    | inr z ↦ leaves_nothing z
  ]

  open_gate :
      (b : Bool)
      → stage.zeroes_out_subtotal ≡ false
      → cross_exceeded request.kind (pos (suc n)) stage request caps ≡ ok b
      → discount_override_requirement stage request caps
        ≡ ok (cap_requirement (matching_exceeded request.kind request caps) b)
  open_gate b z c = gate_open stage request caps b z (rw is.split (omega arith)) (rw is.split c)

  -- The gate decides on every stage of a positive subtotal, whatever the request and the caps.
  pub discount_override_requirement_total :
      (r : OverrideRequirement) × (discount_override_requirement stage request caps ≡ ok r)
  discount_override_requirement_total = elim (Bool-cases stage.zeroes_out_subtotal) [
    | inl z ↦ let (r, e, _) = gate_zeroes stage request caps z in (r, e)
    | inr z ↦
        let (b, c) =
          cross_exceeded_total request.kind (pos (suc n)) stage request caps (λ e. ground arith) in
        (_, open_gate b z c)
  ]

  passes_to :
      PassesGate (suc n) stage request caps
      → discount_override_requirement stage request caps ≡ ok not_required
  unfolding cap_requirement
  passes_to (left, within) =
      let (m, c) = within-caps request.kind (pos (suc n)) stage request caps within in
      open_gate false (still_there left) c ∙ rw m
    where
      still_there : pos 0 <ℤ stage.remaining_subtotal_minor → stage.zeroes_out_subtotal ≡ false
      still_there h = elim (Bool-cases stage.zeroes_out_subtotal) [
        | inl z ↦ absurd (let k : pos 0 <ℤ pos 0 = rw (is.zeroes.0 z) at h in omega arith)
        | inr z ↦ z
      ]

  passes_from :
      discount_override_requirement stage request caps ≡ ok not_required
      → PassesGate (suc n) stage request caps
  passes_from e = elim (Bool-cases stage.zeroes_out_subtotal) [
    | inl z ↦
        let (r, g, required) = gate_zeroes stage request caps z in
        let same : r ≡ not_required = ok-injective (sym g ∙ e) in
        absurd (cc (ap (λ (x : OverrideRequirement). x.required) same))
    | inr z ↦
        let (b, c) =
          cross_exceeded_total request.kind (pos (suc n)) stage request caps (λ q. ground arith) in
        let same : cap_requirement (matching_exceeded request.kind request caps) b ≡ not_required =
          ok-injective (sym (open_gate b z c) ∙ e) in
        let (m, free) =
          cap_requirement-false (matching_exceeded request.kind request caps) b
            (ap (λ (x : OverrideRequirement). x.required) same) in
        (
          leaves_nothing z,
          caps-within request.kind (pos (suc n)) stage request caps (λ q. ground arith) m
              (c ∙ ap ok free),
        )
  ]

  -- A discount passes without a manager's override exactly when it leaves something of the subtotal
  -- and is within the caps that the actor has: that of its own kind and, as an amount or as a share
  -- of the subtotal, that of the other kind.
  pub discount_override_requirement_iff :
      (discount_override_requirement stage request caps ≡ ok not_required)
      ↔ PassesGate (suc n) stage request caps
  discount_override_requirement_iff = (passes_from, passes_to)
