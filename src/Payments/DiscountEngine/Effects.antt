-- ===== src/Payments/DiscountEngine/Effects.antt =====
-- What a discount has checked and written when it succeeds.
use alpha_shadow.Prelude.{
  ◌≡◌, sym, ap, ◌∙◌, ℕ, ◌<◌, Bool, true, false, Option, none, some, int, ℤ, pos, ◌≤ℤ◌, ltb_ℤ, arith,
  ltb→lt, List, Text, ok, guard, guard-eq-ok, guard-not, >>=-eq-ok, ok-injective, validation,
  discount_override_required, coupon_unavailable,
}
use alpha_shadow.Prelude.Transactions.{some_or, some_or-eq-ok}
use alpha_shadow.Money.Decimal.{non_negative_decimal_text_to_minor}
use alpha_shadow.Payments.Discount.{DiscountMechanism, coupon, manual, points}
use alpha_shadow.Payments.Coupons.{
  CouponRecord, ManagerOverrideChallengeInput, ApplyDiscountInput, PaymentActor, DiscountWrite,
  DiscountReads, is_coupon, must_coupon_code, not_expired, has_uses_left, reaches_minimum,
  assert_coupon_usable,
}
use alpha_shadow.Payments.DiscountGate.{coupon_if, evidence_if}

-- A coupon that can be used now for an order of this subtotal.
pub record IsUsable (row : CouponRecord) (subtotal : ℤ) (digits now : ℕ) : Type 0 where
  pub active : row.is_active ≡ true
  pub unexpired : (time : ℕ) → row.expires_at ≡ some time → now < time
  pub uses_left : (max : ℕ) → row.max_uses ≡ some max → row.uses_count < max
  pub minimum :
      (text : Text)
      → row.min_order_amount ≡ some text
      → (minor : ℤ) × (non_negative_decimal_text_to_minor text (int (pos digits)) ≡ ok minor)
        × (minor ≤ℤ subtotal)

not_expired-eq :
    (o : Option ℕ) (now : ℕ) → not_expired o now ≡ true → (time : ℕ) → o ≡ some time → now < time
not_expired-eq o now h time is = ltb→lt now time (ap (λ e. not_expired e now) (sym is) ∙ h)

has_uses_left-eq :
    (o : Option ℕ) (uses : ℕ) → has_uses_left o uses ≡ true → (max : ℕ) → o ≡ some max → uses < max
has_uses_left-eq o uses h max is = ltb→lt uses max (ap (λ e. has_uses_left e uses) (sym is) ∙ h)

not-below : (a b : ℤ) → ltb_ℤ a b ≡ false → b ≤ℤ a
not-below a b h = ground arith

reaches_minimum-eq :
    (o : Option Text) (subtotal : ℤ) (digits : ℕ) {u : Unit {0}}
    → reaches_minimum o subtotal digits ≡ ok u
    → (text : Text) → o ≡ some text
    → (minor : ℤ) × (non_negative_decimal_text_to_minor text (int (pos digits)) ≡ ok minor)
      × (minor ≤ℤ subtotal)
reaches_minimum-eq o subtotal digits h text is =
    let (minor, parsed, h1) =
      >>=-eq-ok (non_negative_decimal_text_to_minor text (int (pos digits))) _
        (ap (λ e. reaches_minimum e subtotal digits) (sym is) ∙ h) in
    (minor, parsed, not-below subtotal minor (guard-not _ coupon_unavailable h1))

assert_coupon_usable-IsUsable :
    (row : CouponRecord) (subtotal : ℤ) (digits now : ℕ) {u : Unit {0}}
    → assert_coupon_usable row subtotal digits now ≡ ok u
    → IsUsable row subtotal digits now
unfolding assert_coupon_usable
assert_coupon_usable-IsUsable row subtotal digits now h =
    let (_, active, h1) = >>=-eq-ok (guard row.is_active coupon_unavailable) _ h in
    let (_, time, h2) =
      >>=-eq-ok (guard (not_expired row.expires_at now) coupon_unavailable) _ h1 in
    let (_, uses, h3) =
      >>=-eq-ok (guard (has_uses_left row.max_uses row.uses_count) coupon_unavailable) _ h2 in
    record {
      active = guard-eq-ok _ coupon_unavailable active;
      unexpired = not_expired-eq row.expires_at now (guard-eq-ok _ coupon_unavailable time);
      uses_left =
          has_uses_left-eq row.max_uses row.uses_count (guard-eq-ok _ coupon_unavailable uses);
      minimum = reaches_minimum-eq row.min_order_amount subtotal digits h3;
    }

-- The coupon of a row: none for another mechanism, and a usable one for a coupon.
abbrev pub IsCoupon :
    DiscountReads
    → List DiscountWrite
    → ApplyDiscountInput
    → ℤ
    → ℕ
    → DiscountMechanism
    → Option Text
    → Type 0
IsCoupon reads w input subtotal digits coupon id =
    (code : Text) × (row : CouponRecord) × (must_coupon_code input ≡ ok code)
    × (reads.load_coupon_by_code w code ≡ some row)
    × IsUsable row subtotal digits (reads.clock w)
    × (id ≡ some row.id)
IsCoupon reads w input subtotal digits _ id = id ≡ none

pub coupon_if-IsCoupon :
    (reads : DiscountReads) (w : List DiscountWrite) (input : ApplyDiscountInput) (subtotal : ℤ)
    (digits : ℕ) (mechanism : DiscountMechanism) {id : Option Text}
    → coupon_if reads w (is_coupon mechanism) input subtotal digits ≡ ok id
    → IsCoupon reads w input subtotal digits mechanism id
coupon_if-IsCoupon reads w input subtotal digits coupon h =
    let (code, named, h1) = >>=-eq-ok (must_coupon_code input) _ h in
    let (row, loaded, h2) =
      >>=-eq-ok (some_or coupon_unavailable (reads.load_coupon_by_code w code)) _ h1 in
    let (_, usable, h3) =
      >>=-eq-ok (assert_coupon_usable row subtotal digits (reads.clock w)) _ h2 in
    (
      code,
      row,
      named,
      some_or-eq-ok coupon_unavailable _ loaded,
      assert_coupon_usable-IsUsable row subtotal digits (reads.clock w) usable,
      sym (ok-injective h3),
    )
coupon_if-IsCoupon reads w input subtotal digits manual h = sym (ok-injective h)
coupon_if-IsCoupon reads w input subtotal digits points h = sym (ok-injective h)

-- The evidence of a row: the attempt of the manager, exactly when it is required.
abbrev pub IsEvidence :
    DiscountReads
    → List DiscountWrite
    → PaymentActor
    → ApplyDiscountInput
    → Bool
    → Option Text
    → Type 0
IsEvidence reads w actor input false attempt = attempt ≡ none
IsEvidence reads w actor input true attempt =
    (challenge : ManagerOverrideChallengeInput) × (input.manager_override ≡ some challenge)
    × (id : Text) × (reads.find_successful_override_attempt_id w actor.user_id
          challenge.manager_user_id input.order_id
        ≡ some id)
    × (attempt ≡ some id)

pub evidence_if-IsEvidence :
    (reads : DiscountReads) (w : List DiscountWrite) (actor : PaymentActor)
    (input : ApplyDiscountInput) (required : Bool) {attempt : Option Text}
    → evidence_if reads w required actor input ≡ ok attempt
    → IsEvidence reads w actor input required attempt
evidence_if-IsEvidence reads w actor input false h = sym (ok-injective h)
evidence_if-IsEvidence reads w actor input true h =
    let (challenge, given, h1) =
      >>=-eq-ok (some_or discount_override_required input.manager_override) _ h in
    let (id, found, h2) =
      >>=-eq-ok
        (some_or validation (
          reads.find_successful_override_attempt_id w actor.user_id challenge.manager_user_id
            input.order_id))
        _ h1 in
    (
      challenge,
      some_or-eq-ok discount_override_required _ given,
      id,
      some_or-eq-ok validation _ found,
      sym (ok-injective h2),
    )
