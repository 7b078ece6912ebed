-- ===== src/Payments/DiscountGate.antt =====
-- application/engines/payments/discount-engine.ts: the passes of `applyDiscount` before its write.
use alpha_shadow.Prelude.{
  ℕ, Bool, true, false, not, ◌||◌, Option, none, some, int, ℤ, pos, ◌-ℤ◌, List, [], Text, Result,
  ok, err, ◌>>=◌, ◌>>◌, guard, validation, not_found, loyalty_points_deferred,
  discount_override_required, coupon_unavailable, override_authentication,
}
use alpha_shadow.Prelude.Transactions.{some_or}
use alpha_shadow.Money.Currency.{currency_code}
use alpha_shadow.Money.Decimal.{storage_minor_unit_digits, minor_to_decimal_text}
use alpha_shadow.Payments.Discount.{
  ParsedDiscountRequest, ParsedDiscountCaps, parse_discount_request, parse_discount_caps,
  DiscountStageComputation, compute_discount_stage, OverrideRequirement,
  discount_override_requirement,
}
use alpha_shadow.Payments.Totals.{OrderTotalsComputation, compute_order_totals}
use alpha_shadow.Payments.Coupons.{
  UserDiscountCaps, ManagerOverrideChallengeInput, ApplyDiscountInput, PaymentActor,
  InsertOrderDiscountInput, DiscountWrite, DiscountReads, discount_permission_key, is_points,
  is_coupon, must_coupon_code, assert_kind_granted, assert_coupon_usable, canonical_value_text,
}

abbrev pub percentage_cap : Option UserDiscountCaps → Option Text
percentage_cap none = none
percentage_cap (some row) = row.max_discount_percentage

abbrev pub fixed_amount_cap : Option UserDiscountCaps → Option Text
fixed_amount_cap none = none
fixed_amount_cap (some row) = row.max_discount_fixed_amount

-- What the first pass hands on.
pub record PrePass : Type 0 where
  pub base_digits : ℕ
  pub caps : ParsedDiscountCaps
  pub requirement : OverrideRequirement
  pub branch_id : Text

abbrev pub coupon_code_if : Bool → ApplyDiscountInput → Result (Unit {0})
coupon_code_if false input = ok tt
coupon_code_if true input = must_coupon_code input >>= (λ code. ok tt)

abbrev pub remaining_subtotal : OrderTotalsComputation → ℤ
remaining_subtotal totals = totals.subtotal_minor -ℤ totals.discount_total_minor

-- The stage of an order and what it requires.
pub record StageDecision : Type 0 where
  pub stage : DiscountStageComputation
  pub requirement : OverrideRequirement

unfoldable pub decide_stage :
    ParsedDiscountRequest → OrderTotalsComputation → ParsedDiscountCaps → Result StageDecision
decide_stage request totals caps = do
  stage ← compute_discount_stage (remaining_subtotal totals) request
  requirement ← discount_override_requirement stage request caps
  ok (record { stage = stage; requirement = requirement })

-- The authorization at the branch of the order.
unfoldable pub authorize_discount :
    DiscountReads → PaymentActor → ApplyDiscountInput → Result (Unit {0})
authorize_discount before actor input = do
  guard (not (is_points input.mechanism)) loyalty_points_deferred
  snapshot ← some_or not_found (before.load_order_financial_snapshot [] input.order_id)
  before.check actor.user_id discount_permission_key (some actor.token_sec_v) snapshot.branch_id

-- The read pass before the challenge.
unfoldable pub pre_pass : DiscountReads → PaymentActor → ApplyDiscountInput → Result PrePass
pre_pass seen actor input = do
  snapshot ← some_or not_found (seen.load_order_financial_snapshot [] input.order_id)
  base ← currency_code snapshot.base_currency_code
  digits ← storage_minor_unit_digits base
  totals ← compute_order_totals snapshot
  request ← parse_discount_request input.discount_kind input.discount_value_text (int (pos digits))
  let row = seen.load_user_discount_caps [] actor.user_id
  caps ← parse_discount_caps (percentage_cap row) (fixed_amount_cap row) (int (pos digits))
  assert_kind_granted input.discount_kind caps
  decision ← decide_stage request totals caps
  coupon_code_if (is_coupon input.mechanism) input
  ok (record {
    base_digits = digits;
    caps = caps;
    requirement = decision.requirement;
    branch_id = snapshot.branch_id;
  })

-- Any refusal of the manager's permission is an authentication error.
abbrev pub manager_holds : Result (Unit {0}) → Result (Unit {0})
manager_holds (ok u) = ok tt
manager_holds (err e) = err override_authentication

abbrev pub challenge_manager :
    DiscountReads
    → PaymentActor
    → ApplyDiscountInput
    → PrePass
    → ManagerOverrideChallengeInput
    → Result (Unit {0})
challenge_manager seen actor input pre challenge = do
  manager_holds (seen.check challenge.manager_user_id discount_permission_key none pre.branch_id)
  seen.verify_live_challenge challenge.manager_user_id challenge.manager_override_pin actor.user_id
      input.order_id

abbrev pub when_demanded :
    DiscountReads → PaymentActor → ApplyDiscountInput → PrePass → Bool → Result (Unit {0})
when_demanded seen actor input pre false = ok tt
when_demanded seen actor input pre true = do
  challenge ← some_or discount_override_required input.manager_override
  challenge_manager seen actor input pre challenge

-- The escalation, when the first pass demands it.
unfoldable pub escalate :
    DiscountReads → PaymentActor → ApplyDiscountInput → PrePass → Result (Unit {0})
escalate seen actor input pre = when_demanded seen actor input pre pre.requirement.required

module _ (reads : DiscountReads) (w : List DiscountWrite) where
  abbrev pub usable_coupon : ApplyDiscountInput → ℤ → ℕ → Result (Option Text)
  usable_coupon input subtotal digits = do
    code ← must_coupon_code input
    row ← some_or coupon_unavailable (reads.load_coupon_by_code w code)
    assert_coupon_usable row subtotal digits (reads.clock w)
    ok (some row.id)

  abbrev pub coupon_if : Bool → ApplyDiscountInput → ℤ → ℕ → Result (Option Text)
  coupon_if false input subtotal digits = ok none
  coupon_if true input subtotal digits = usable_coupon input subtotal digits

  abbrev pub evidence_if : Bool → PaymentActor → ApplyDiscountInput → Result (Option Text)
  evidence_if false actor input = ok none
  evidence_if true actor input = do
    challenge ← some_or discount_override_required input.manager_override
    attempt ← some_or validation (
        reads.find_successful_override_attempt_id w actor.user_id challenge.manager_user_id
          input.order_id)
    ok (some attempt)

  -- The row of the discount, computed anew under the lock.
  unfoldable pub prepare_discount :
      PaymentActor → ApplyDiscountInput → PrePass → Result InsertOrderDiscountInput
  prepare_discount actor input pre = do
    snapshot ← some_or not_found (reads.load_order_financial_snapshot w input.order_id)
    totals ← compute_order_totals snapshot
    request ←
        parse_discount_request input.discount_kind input.discount_value_text
          (int (pos pre.base_digits))
    decision ← decide_stage request totals pre.caps
    let required = decision.requirement.required
    guard (not required || pre.requirement.required) discount_override_required
    coupon_id ← coupon_if (is_coupon input.mechanism) input totals.subtotal_minor pre.base_digits
    attempt ← evidence_if required actor input
    value ← canonical_value_text input.discount_kind input.discount_value_text
    applied ← minor_to_decimal_text decision.stage.applied_minor (int (pos pre.base_digits))
    ok (record {
      order_id = input.order_id;
      mechanism = input.mechanism;
      coupon_id = coupon_id;
      discount_kind = input.discount_kind;
      discount_value = value;
      discount_amount_applied = applied;
      required_manager_override = required;
      manager_override_attempt_id = attempt;
      applied_by = actor.user_id;
    })
