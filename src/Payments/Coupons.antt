-- ===== src/Payments/Coupons.antt =====
-- application/engines/payments/discount-engine.ts: what `applyDiscount` checks before it writes. The
-- store is the part of it that the engine uses; the challenge of a manager is a port.
use alpha_shadow.Prelude.{
  ℕ, Bool, true, false, not, ltb, Option, none, some, int, ℤ, pos, ltb_ℤ, List, Text, codes, Result,
  ok, ◌>>=◌, ◌>>◌, guard, validation, discount_authority_missing, coupon_unavailable,
}
use alpha_shadow.Prelude.Strings.{is_blank, trim}
use alpha_shadow.Prelude.Transactions.{some_or}
use alpha_shadow.Money.Decimal.{
  non_negative_decimal_text_to_minor, minor_to_decimal_text, percent_text_to_dbps,
  dbps_to_percent_text,
}
use alpha_shadow.Payments.Discount.{
  DiscountKind, percentage, fixed_amount, ParsedDiscountCaps, DiscountMechanism, coupon, points,
}
use alpha_shadow.Payments.Totals.{OrderFinancialSnapshot}

pub record CouponRecord : Type 0 where
  pub id : Text
  pub code : Text
  pub min_order_amount : Option Text
  pub max_uses : Option ℕ
  pub uses_count : ℕ
  pub expires_at : Option ℕ
  pub is_active : Bool

pub record UserDiscountCaps : Type 0 where
  pub max_discount_percentage : Option Text
  pub max_discount_fixed_amount : Option Text

pub record ManagerOverrideChallengeInput : Type 0 where
  pub manager_user_id : Text
  pub manager_override_pin : Text

pub record ApplyDiscountInput : Type 0 where
  pub order_id : Text
  pub mechanism : DiscountMechanism
  pub discount_kind : DiscountKind
  pub discount_value_text : Text
  pub coupon_code : Option Text
  pub manager_override : Option ManagerOverrideChallengeInput

pub record PaymentActor : Type 0 where
  pub user_id : Text
  pub token_sec_v : Text

pub record InsertOrderDiscountInput : Type 0 where
  pub order_id : Text
  pub mechanism : DiscountMechanism
  pub coupon_id : Option Text
  pub discount_kind : DiscountKind
  pub discount_value : Text
  pub discount_amount_applied : Text
  pub required_manager_override : Bool
  pub manager_override_attempt_id : Option Text
  pub applied_by : Text

pub data DiscountWrite : Type 0 where
  bump_order_revision : Text → DiscountWrite
  insert_order_discount : InsertOrderDiscountInput → DiscountWrite
  increment_coupon_uses : Text → DiscountWrite

-- `verify_live_challenge` is the port of the manager's PIN, asked for a manager, a PIN, the actor
-- and the order; the attempt that it commits is found by `find_successful_override_attempt_id`.
pub record DiscountReads : Type 0 where
  pub lock_order : List DiscountWrite → Text → Option Text
  pub load_order_financial_snapshot : List DiscountWrite → Text → Option OrderFinancialSnapshot
  pub load_user_discount_caps : List DiscountWrite → Text → Option UserDiscountCaps
  pub load_coupon_by_code : List DiscountWrite → Text → Option CouponRecord
  pub find_successful_override_attempt_id : List DiscountWrite → Text → Text → Text → Option Text
  pub inserted_discount : List DiscountWrite → InsertOrderDiscountInput → Result Text
  pub clock : List DiscountWrite → ℕ
  pub check : Text → Text → Option Text → Text → Result (Unit {0})
  pub verify_live_challenge : Text → Text → Text → Text → Result (Unit {0})

abbrev pub discount_permission_key : Text
discount_permission_key = codes "order:discount:apply"

abbrev pub is_points : DiscountMechanism → Bool
is_points points = true
is_points _ = false

abbrev pub is_coupon : DiscountMechanism → Bool
is_coupon coupon = true
is_coupon _ = false

unfoldable pub must_coupon_code : ApplyDiscountInput → Result Text
must_coupon_code input = do
  code ← some_or validation input.coupon_code
  guard (not (is_blank code)) validation
  ok (trim code)

abbrev pub is_granted : Option ℤ → Bool
is_granted none = false
is_granted (some cap) = true

-- `assertKindGranted`.
unfoldable pub assert_kind_granted : DiscountKind → ParsedDiscountCaps → Result (Unit {0})
assert_kind_granted percentage caps =
    guard (is_granted caps.max_percent_dbps) discount_authority_missing
assert_kind_granted fixed_amount caps =
    guard (is_granted caps.max_fixed_amount_minor) discount_authority_missing

abbrev pub not_expired : Option ℕ → ℕ → Bool
not_expired none now = true
not_expired (some time) now = ltb now time

abbrev pub has_uses_left : Option ℕ → ℕ → Bool
has_uses_left none uses = true
has_uses_left (some max) uses = ltb uses max

abbrev pub reaches_minimum : Option Text → ℤ → ℕ → Result (Unit {0})
reaches_minimum none subtotal digits = ok tt
reaches_minimum (some text) subtotal digits = do
  minimum ← non_negative_decimal_text_to_minor text (int (pos digits))
  guard (not (ltb_ℤ subtotal minimum)) coupon_unavailable

unfoldable pub assert_coupon_usable : CouponRecord → ℤ → ℕ → ℕ → Result (Unit {0})
assert_coupon_usable row subtotal digits now = do
  guard row.is_active coupon_unavailable
  guard (not_expired row.expires_at now) coupon_unavailable
  guard (has_uses_left row.max_uses row.uses_count) coupon_unavailable
  reaches_minimum row.min_order_amount subtotal digits

-- `NUMERIC(18,4)` text of the requested value.
unfoldable pub canonical_value_text : DiscountKind → Text → Result Text
canonical_value_text percentage text = do
  dbps ← percent_text_to_dbps text
  dbps_to_percent_text (pos dbps)
canonical_value_text fixed_amount text = do
  value ← non_negative_decimal_text_to_minor text (int (pos 4))
  minor_to_decimal_text value (int (pos 4))
