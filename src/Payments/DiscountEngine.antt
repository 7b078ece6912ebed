-- ===== src/Payments/DiscountEngine.antt =====
-- application/engines/payments/discount-engine.ts: `applyDiscount`.
pub mod Effects
pub mod Outcome
use alpha_shadow.Prelude.{Option, none, some, List, ◌∷◌, Text, Error, Result, ok, err, not_found}
use alpha_shadow.Prelude.Transactions.{
  Tx, and_then, ◌>>=◌, ◌>>◌, lift, attempt, write, run, some_or,
}
use alpha_shadow.Payments.Coupons.{
  ApplyDiscountInput, PaymentActor, InsertOrderDiscountInput, DiscountWrite, bump_order_revision,
  insert_order_discount, increment_coupon_uses, DiscountReads,
}
use alpha_shadow.Payments.DiscountGate.{
  PrePass, authorize_discount, pre_pass, escalate, prepare_discount,
}

-- The use of a coupon.
abbrev pub count_use : Option Text → List DiscountWrite → List DiscountWrite
count_use none w = w
count_use (some coupon) w = increment_coupon_uses coupon ∷ w

module _ (reads : DiscountReads) where
  abbrev pub write_discount : InsertOrderDiscountInput → Text → Tx DiscountWrite Text
  write_discount row id = do
    write (insert_order_discount row)
    λ w. (ok id, count_use row.coupon_id w)

  abbrev pub insert_discount : InsertOrderDiscountInput → Tx DiscountWrite Text
  insert_discount row = do id ← attempt (λ w. reads.inserted_discount w row); write_discount row id

  abbrev pub discount_order :
      PaymentActor → ApplyDiscountInput → PrePass → Text → Tx DiscountWrite Text
  discount_order actor input pre locked = do
    write (bump_order_revision input.order_id)
    row ← attempt (λ w. prepare_discount reads w actor input pre)
    insert_discount row

  -- The write transaction.
  unfoldable pub discount_locked :
      PaymentActor → ApplyDiscountInput → PrePass → Tx DiscountWrite Text
  discount_locked actor input pre = do
    locked ← attempt (λ w. some_or not_found (reads.lock_order w input.order_id))
    discount_order actor input pre locked

  abbrev pub discount_challenged :
      PaymentActor → ApplyDiscountInput → PrePass → Unit {0} → Tx DiscountWrite Text
  discount_challenged actor input pre u = run (discount_locked actor input pre)

  abbrev pub discount_passed :
      DiscountReads → PaymentActor → ApplyDiscountInput → PrePass → Tx DiscountWrite Text
  discount_passed seen actor input pre = do
    u ← lift (escalate seen actor input pre)
    discount_challenged actor input pre u

  abbrev pub discount_authorized :
      DiscountReads → PaymentActor → ApplyDiscountInput → Unit {0} → Tx DiscountWrite Text
  discount_authorized seen actor input u = do
    pre ← lift (pre_pass seen actor input)
    discount_passed seen actor input pre

  -- `applyDiscount`: the stores `before` and `seen` are those of the authorization and of the first
  -- pass. The result stands for the row by its id.
  unfoldable pub apply_discount :
      DiscountReads → DiscountReads → PaymentActor → ApplyDiscountInput → Tx DiscountWrite Text
  apply_discount before seen actor input = do
    u ← lift (authorize_discount before actor input)
    discount_authorized seen actor input u
