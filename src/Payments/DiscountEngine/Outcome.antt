-- ===== src/Payments/DiscountEngine/Outcome.antt =====
-- The outcome of `applyDiscount`.
use alpha_shadow.Prelude.{◌≡◌, true, false, none, some, int, pos, List, [], ◌∷◌, ok}
use alpha_shadow.Money.Decimal.{minor_to_decimal_text}
use alpha_shadow.Payments.Discount.{
  ParsedDiscountRequest, parse_discount_request, compute_discount_stage,
  discount_override_requirement,
}
use alpha_shadow.Payments.Totals.{
  OrderFinancialSnapshot, OrderTotalsComputation, compute_order_totals,
}
use alpha_shadow.Payments.Coupons.{
  ManagerOverrideChallengeInput, ApplyDiscountInput, PaymentActor, InsertOrderDiscountInput,
  DiscountWrite, bump_order_revision, insert_order_discount, DiscountReads, discount_permission_key,
  is_points, canonical_value_text,
}
use alpha_shadow.Payments.DiscountGate.{PrePass, remaining_subtotal, StageDecision, pre_pass}
use alpha_shadow.Payments.DiscountEngine.{count_use}
use alpha_shadow.Payments.DiscountEngine.Effects.{IsCoupon, IsEvidence}

-- The manager holds the permission at the branch, and has passed the live challenge.
pub record Challenged (seen : DiscountReads) (actor : PaymentActor) (input : ApplyDiscountInput)
    (pre : PrePass) : Type 0 where
  pub challenge : ManagerOverrideChallengeInput
  pub given : input.manager_override ≡ some challenge
  pub holds :
      seen.check challenge.manager_user_id discount_permission_key none pre.branch_id ≡ ok tt
  pub verified :
      seen.verify_live_challenge challenge.manager_user_id challenge.manager_override_pin
        actor.user_id input.order_id
      ≡ ok tt

-- The row that is written, computed on the order as it is under the lock.
pub record IsDiscount (reads : DiscountReads) (w : List DiscountWrite) (actor : PaymentActor)
    (input : ApplyDiscountInput) (pre : PrePass) (row : InsertOrderDiscountInput) : Type 0 where
  pub snapshot : OrderFinancialSnapshot
  pub totals : OrderTotalsComputation
  pub request : ParsedDiscountRequest
  pub decision : StageDecision
  pub loaded : reads.load_order_financial_snapshot w input.order_id ≡ some snapshot
  pub computed : compute_order_totals snapshot ≡ ok totals
  pub requested :
      parse_discount_request input.discount_kind input.discount_value_text
        (int (pos pre.base_digits))
      ≡ ok request
  pub staged : compute_discount_stage (remaining_subtotal totals) request ≡ ok decision.stage
  pub required :
      discount_override_requirement decision.stage request pre.caps ≡ ok decision.requirement
  pub is_required : row.required_manager_override ≡ decision.requirement.required
  pub foreseen : decision.requirement.required ≡ true → pre.requirement.required ≡ true
  pub is_coupon_row :
      IsCoupon reads w input totals.subtotal_minor pre.base_digits input.mechanism row.coupon_id
  pub is_evidence :
      IsEvidence reads w actor input decision.requirement.required row.manager_override_attempt_id
  pub is_value :
      canonical_value_text input.discount_kind input.discount_value_text ≡ ok row.discount_value
  pub is_applied :
      minor_to_decimal_text decision.stage.applied_minor (int (pos pre.base_digits))
      ≡ ok row.discount_amount_applied

-- A discount that is applied from the writes `w`.
pub record Discounted (reads before seen : DiscountReads) (actor : PaymentActor)
    (input : ApplyDiscountInput) (w w' : List DiscountWrite) : Type 0 where
  pub snapshot : OrderFinancialSnapshot
  pub pre : PrePass
  pub row : InsertOrderDiscountInput
  pub not_points : is_points input.mechanism ≡ false
  pub loaded : before.load_order_financial_snapshot [] input.order_id ≡ some snapshot
  pub authorized :
      before.check actor.user_id discount_permission_key (some actor.token_sec_v) snapshot.branch_id
      ≡ ok tt
  pub passed : pre_pass seen actor input ≡ ok pre
  pub is_row : IsDiscount reads (bump_order_revision input.order_id ∷ w) actor input pre row
  pub overridden : row.required_manager_override ≡ true → Challenged seen actor input pre
  pub written :
      w'
      ≡ count_use row.coupon_id (insert_order_discount row ∷ bump_order_revision input.order_id ∷ w)
