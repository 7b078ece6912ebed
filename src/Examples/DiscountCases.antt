-- ===== src/Examples/DiscountCases.antt =====
-- A coupon for the whole of an order, approved by a manager.
use alpha_shadow.Prelude.{true, none, some, pos, List, [], ◌∷◌, codes, ok}
use alpha_shadow.Payments.Totals.{payable, OrderFinancialSnapshot}
use alpha_shadow.Payments.Discount.{percentage, coupon}
use alpha_shadow.Payments.Coupons.{
  ApplyDiscountInput, PaymentActor, InsertOrderDiscountInput, DiscountWrite, bump_order_revision,
  insert_order_discount, increment_coupon_uses, DiscountReads,
}

abbrev dinner : OrderFinancialSnapshot
dinner = record {
  branch_id = codes "b1";
  payment_status = payable;
  base_currency_code = codes "USD";
  rounding_strategy = none;
  lines = record { order_item_id = codes "i1"; line_amount_minor = pos 1000; tax_plan = [] } ∷ [];
  discounts = [];
  completed_payments_minor = pos 0;
  payment_statuses = [];
}

abbrev dinner_store : DiscountReads
dinner_store = record {
  lock_order = λ _ order. some order;
  load_order_financial_snapshot = λ _ _. some dinner;
  load_user_discount_caps = λ _ _.
      some
        (record { max_discount_percentage = some (codes "20"); max_discount_fixed_amount = none });
  load_coupon_by_code = λ _ _. some (record {
    id = codes "c1";
    code = codes "FREE";
    min_order_amount = some (codes "5.00");
    max_uses = some 3;
    uses_count = 2;
    expires_at = some 100;
    is_active = true;
  });
  find_successful_override_attempt_id = λ _ _ _ _. some (codes "a1");
  inserted_discount = λ _ _. ok (codes "d1");
  clock = λ _. 7;
  check = λ _ _ _ _. ok tt;
  verify_live_challenge = λ _ _ _ _. ok tt;
}

abbrev waiter : PaymentActor
waiter = record { user_id = codes "u1"; token_sec_v = codes "t1" }

abbrev free_dinner : ApplyDiscountInput
free_dinner = record {
  order_id = codes "o1";
  mechanism = coupon;
  discount_kind = percentage;
  discount_value_text = codes "100";
  coupon_code = some (codes " FREE");
  manager_override =
      some (record { manager_user_id = codes "u2"; manager_override_pin = codes "1234" });
}

abbrev free_dinner_row : InsertOrderDiscountInput
free_dinner_row = record {
  order_id = codes "o1";
  mechanism = coupon;
  coupon_id = some (codes "c1");
  discount_kind = percentage;
  discount_value = codes "100.0000";
  discount_amount_applied = codes "10.00";
  required_manager_override = true;
  manager_override_attempt_id = some (codes "a1");
  applied_by = codes "u1";
}

abbrev free_dinner_writes : List DiscountWrite
free_dinner_writes =
    increment_coupon_uses (codes "c1")
    ∷ insert_order_discount free_dinner_row
    ∷ bump_order_revision (codes "o1")
    ∷ []
