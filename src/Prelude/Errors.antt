-- ===== src/Prelude/Errors.antt =====
-- The errors of shared/errors.ts that the modelled code throws, by their classes, and the results
-- of code that may throw. ShiftNotOpenError counts as the ConflictError that it extends;
-- `unique_violation` is the database's report of the constraint on open shifts.
use mathlib.Core.Path.{◌≡◌, refl}
use mathlib.Core.Bool.{Bool, true, false, not}

pub data Error : Type 0 where
  validation : Error
  currency_mismatch : Error
  tax_configuration : Error
  not_found : Error
  forbidden : Error
  authorization : Error
  workflow_transition : Error
  conflict : Error
  unique_violation : Error
  cashier_shift_required : Error
  payment_exceeds_balance : Error
  payment_method_unavailable : Error
  payment_status_transition : Error
  loyalty_points_deferred : Error
  discount_authority_missing : Error
  discount_override_required : Error
  coupon_unavailable : Error
  override_authentication : Error
  adjustment_reason_unavailable : Error
  no_applicable_tax_liability_rule : Error
  no_applicable_tax_rate : Error
  excise_confirmation_required : Error
  tenant_isolation_violation : Error
  invoice_tax_batch_required : Error

-- What a call that may throw gives: a value, or the error.
pub data Result {u} (T : Type u) : Type u where
  err : Error → Result T
  ok : T → Result T

-- `if (!test) throw error;`
abbrev pub guard : Bool → Error → Result (Unit {0})
guard false error = err error
guard true error = ok tt

infixl 5 ◌>>=◌ ◌>>◌
abbrev pub ◌>>=◌ {u v} : {S : Type u} {T : Type v} → Result S → (S → Result T) → Result T
err error >>= next = err error
ok value >>= next = next value

-- The next call, after one whose value is not used.
abbrev pub ◌>>◌ {v} : {T : Type v} → Result (Unit {0}) → Result T → Result T
first >> second = first >>= λ _. second

-- What a successful chain says of its first step.
pub >>=-eq-ok {u v} :
    {S : Type u} {T : Type v} (first : Result S) (next : S → Result T) {result : T}
    → (first >>= next) ≡ ok result
    → (value : S) × (first ≡ ok value) × (next value ≡ ok result)
>>=-eq-ok (err error) next h = cc
>>=-eq-ok (ok value) next h = (value, refl, h)

pub ok-injective {ℓ} : {A : Type ℓ} {a b : A} → ok a ≡ ok b → a ≡ b
ok-injective h = cc

-- A guard on a negated test that passed.
pub guard-not : (b : Bool) (e : Error) {u : Unit {0}} → guard (not b) e ≡ ok u → b ≡ false
guard-not true e h = cc
guard-not false e h = refl

-- A guard that passed.
pub guard-eq-ok : (b : Bool) (e : Error) {u : Unit {0}} → guard b e ≡ ok u → b ≡ true
guard-eq-ok true e h = refl
guard-eq-ok false e h = cc

pub err-not-ok {ℓ} : {A : Type ℓ} {e : Error} {a : A} → err e ≡ ok a → ⊥
err-not-ok h = cc
