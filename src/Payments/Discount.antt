-- ===== src/Payments/Discount.antt =====
-- application/engines/payments/discount-math.ts: discount stages, the cap gate and stacking.
pub mod Stage
pub mod Gate
pub mod Stacking
use alpha_shadow.Prelude.{
  ℕ, Bool, true, false, ◌&&◌, if◌then◌else◌, Option, none, some, Num, Text, ℤ, pos, ◌+ℤ◌, ◌-ℤ◌,
  ◌*ℤ◌, ltb_ℤ, leb_ℤ, eqb_ℤ, List, [], ◌∷◌, Result, ok, err, ◌>>=◌, ◌>>◌, guard, validation, not,
}
use alpha_shadow.Money.Rounding.{divide_round_half_to_even}
use alpha_shadow.Money.Decimal.{percent_text_to_dbps, non_negative_decimal_text_to_minor}

pub data DiscountKind : Type 0 where
  percentage fixed_amount : DiscountKind

abbrev pub dbps_per_percent : ℤ
dbps_per_percent = pos 1_000_000

pub record ParsedDiscountRequest : Type 0 where
  pub kind : DiscountKind
  pub percent_dbps : Option ℤ
  pub fixed_amount_minor : Option ℤ

-- `none`: the dimension is not granted.
pub record ParsedDiscountCaps : Type 0 where
  pub max_percent_dbps : Option ℤ
  pub max_fixed_amount_minor : Option ℤ

-- A value that is present is parsed.
abbrev pub parse_cap : (Text → Result ℤ) → Option Text → Result (Option ℤ)
parse_cap parse none = ok none
parse_cap parse (some text) = do value ← parse text; ok (some value)

abbrev pub percent_dbps_of : Text → Result ℤ
percent_dbps_of text = do dbps ← percent_text_to_dbps text; ok (pos dbps)

unfoldable pub parse_discount_request : DiscountKind → Text → Num → Result ParsedDiscountRequest
parse_discount_request percentage value_text base_minor_digits = do
  dbps ← percent_dbps_of value_text
  guard (not (leb_ℤ dbps (pos 0))) validation
  guard (not (ltb_ℤ (pos 1_000_000) dbps)) validation
  ok (record { kind = percentage; percent_dbps = some dbps; fixed_amount_minor = none })
parse_discount_request fixed_amount value_text base_minor_digits = do
  minor ← non_negative_decimal_text_to_minor value_text base_minor_digits
  guard (not (leb_ℤ minor (pos 0))) validation
  ok (record { kind = fixed_amount; percent_dbps = none; fixed_amount_minor = some minor })

unfoldable pub parse_discount_caps : Option Text → Option Text → Num → Result ParsedDiscountCaps
parse_discount_caps max_percentage_text max_fixed_amount_text base_minor_digits = do
  percent ← parse_cap percent_dbps_of max_percentage_text
  fixed ←
      parse_cap (λ text. non_negative_decimal_text_to_minor text base_minor_digits)
        max_fixed_amount_text
  ok (record { max_percent_dbps = percent; max_fixed_amount_minor = fixed })

pub record DiscountStageComputation : Type 0 where
  pub requested_minor : ℤ
  pub applied_minor : ℤ
  pub zeroes_out_subtotal : Bool
  pub remaining_subtotal_minor : ℤ

-- `value ?? 0n`
abbrev pub or_zero : Option ℤ → ℤ
or_zero none = pos 0
or_zero (some n) = n

unfoldable pub requested_amount : ℤ → DiscountKind → ParsedDiscountRequest → Result ℤ
requested_amount remaining percentage request =
    divide_round_half_to_even (remaining *ℤ or_zero request.percent_dbps) dbps_per_percent
requested_amount remaining fixed_amount request = ok (or_zero request.fixed_amount_minor)

-- What follows the computation of the requested amount.
unfoldable pub cap_stage : ℤ → ℤ → Result DiscountStageComputation
cap_stage remaining requested =
    if leb_ℤ requested (pos 0)
    then err validation
    else let applied : ℤ = if ltb_ℤ requested remaining then requested else remaining in
      ok (record {
        requested_minor = requested;
        applied_minor = applied;
        zeroes_out_subtotal = leb_ℤ remaining applied;
        remaining_subtotal_minor = remaining -ℤ applied;
      })

unfoldable pub compute_discount_stage : ℤ → ParsedDiscountRequest → Result DiscountStageComputation
unfolding requested_amount cap_stage
compute_discount_stage remaining request = do
  guard (not (ltb_ℤ remaining (pos 0))) validation
  requested ← requested_amount remaining request.kind request
  cap_stage remaining requested

pub data DiscountOverrideReason : Type 0 where
  zeroes_out exceeds_matching_cap exceeds_cross_equivalent_cap both : DiscountOverrideReason

pub record OverrideRequirement : Type 0 where
  pub required : Bool
  pub reason : Option DiscountOverrideReason

-- A cap that is granted and below the value.
abbrev pub exceeds : ℤ → Option ℤ → Bool
exceeds value none = false
exceeds value (some cap) = ltb_ℤ cap value

unfoldable pub matching_exceeded : DiscountKind → ParsedDiscountRequest → ParsedDiscountCaps → Bool
matching_exceeded percentage request caps =
    exceeds (or_zero request.percent_dbps) caps.max_percent_dbps
matching_exceeded fixed_amount request caps =
    exceeds (or_zero request.fixed_amount_minor) caps.max_fixed_amount_minor

-- The fixed amount as a percentage of the basis, looked at only where that cap is granted.
unfoldable pub fixed_cross : ℤ → ℤ → Option ℤ → Result Bool
fixed_cross basis amount none = ok false
fixed_cross basis amount (some cap) = do
  equivalent ← divide_round_half_to_even (amount *ℤ dbps_per_percent) basis
  ok (ltb_ℤ cap equivalent)

unfoldable pub cross_exceeded :
    DiscountKind
    → ℤ
    → DiscountStageComputation
    → ParsedDiscountRequest
    → ParsedDiscountCaps
    → Result Bool
unfolding fixed_cross
cross_exceeded percentage basis stage request caps =
    ok (exceeds stage.requested_minor caps.max_fixed_amount_minor)
cross_exceeded fixed_amount basis stage request caps =
    fixed_cross basis (or_zero request.fixed_amount_minor) caps.max_percent_dbps

-- The last four returns.
unfoldable pub cap_requirement : Bool → Bool → OverrideRequirement
cap_requirement true true = record { required = true; reason = some both }
cap_requirement true false = record { required = true; reason = some exceeds_matching_cap }
cap_requirement false true = record { required = true; reason = some exceeds_cross_equivalent_cap }
cap_requirement false false = record { required = false; reason = none }

unfoldable pub discount_override_requirement :
    DiscountStageComputation
    → ParsedDiscountRequest
    → ParsedDiscountCaps
    → Result OverrideRequirement
unfolding matching_exceeded cross_exceeded cap_requirement
discount_override_requirement stage request caps =
    let basis : ℤ = stage.applied_minor +ℤ stage.remaining_subtotal_minor in
    let matching : Bool = matching_exceeded request.kind request caps in
    if stage.zeroes_out_subtotal
    then ok (record { required = true; reason = some (if matching then both else zeroes_out) })
    else if leb_ℤ basis (pos 0)
    then ok (record { required = true; reason = some zeroes_out })
    else (do
      cross ← cross_exceeded request.kind basis stage request caps
      ok (cap_requirement matching cross))

pub data DiscountMechanism : Type 0 where
  coupon manual points : DiscountMechanism

pub record StackedDiscountStage : Type 0 where
  pub mechanism : DiscountMechanism
  pub request : ParsedDiscountRequest
  pub caps : ParsedDiscountCaps

pub record StackedDiscountStageResult : Type 0 where
  pub stage : StackedDiscountStage
  pub computation : DiscountStageComputation
  pub override_required : Bool
  pub override_reason : Option DiscountOverrideReason

-- The result recorded for a stage that finds nothing left to discount.
abbrev pub nothing_left : StackedDiscountStage → StackedDiscountStageResult
nothing_left stage = record {
  stage = stage;
  computation = record {
    requested_minor = pos 0;
    applied_minor = pos 0;
    zeroes_out_subtotal = false;
    remaining_subtotal_minor = pos 0;
  };
  override_required = false;
  override_reason = none;
}

-- One round of the loop on a remainder other than 0.
unfoldable pub run_stage : ℤ → StackedDiscountStage → Result StackedDiscountStageResult
run_stage remaining stage = do
  computation ← compute_discount_stage remaining stage.request
  requirement ← discount_override_requirement computation stage.request stage.caps
  ok (record {
    stage = stage;
    computation = computation;
    override_required = requirement.required;
    override_reason = requirement.reason;
  })

unfoldable pub apply_discount_stages :
    ℤ → List StackedDiscountStage → Result (List StackedDiscountStageResult)
apply_discount_stages remaining [] = ok []
apply_discount_stages remaining (stage ∷ rest) = elim (eqb_ℤ remaining (pos 0)) [
  | true ↦ do later ← apply_discount_stages remaining rest; ok (nothing_left stage ∷ later)
  | false ↦ do
    result ← run_stage remaining stage
    later ← apply_discount_stages result.computation.remaining_subtotal_minor rest
    ok (result ∷ later)
]
