-- ===== src/Shifts/Engine/Effects.antt =====
-- What the checks before a write say when they pass.
pub mod Opening
pub mod Closing
use mathlib.Core.Path.{subst}
use alpha_shadow.Prelude.{
  guard-eq-ok, ◌+ℤ◌, ◌-ℤ◌, ◌<ℤ◌, ◌≤ℤ◌, ltb_ℤ, Bool-cases, inl, inr, if◌then◌else◌, ℕ, ◌≡◌, ◌≢◌,
  refl, sym, ap, ◌∙◌, Bool, true, false, not, arith, Option, none, some, int, ℤ, pos, List, [], ◌∷◌,
  Text, text_eq, text_beq, text_beq_iff, ◌===◌, Error, ok, guard, guard-not, >>=-eq-ok,
  ok-injective, validation, conflict,
}
use alpha_shadow.Prelude.Transactions.{lift-then-ok}
use alpha_shadow.Money.Decimal.{
  non_negative_decimal_text_to_minor, decimal_text_to_minor, minor_to_decimal_text,
}
use alpha_shadow.Shifts.Counts.{validate_counts, variance_of, variance_type}
use alpha_shadow.Shifts.Counts.Total.{Counted, validate_counts-Counted}
use alpha_shadow.Shifts.Checks.{
  ShiftStatus, open_shift, closed, ShiftRecord, OpenShiftInput, CloseShiftInput, CloseValues,
  ShiftWrite, insert_shift, insert_cash_count_details, bump_shift_revision, close_shift_row,
  open_count, close_count, ShiftReads, shift_open_permission_key, shift_close_permission_key,
  is_open, is_none, found, active_branch, branch_digits, assert_members, prepare_open,
  authorize_close, prepare_close,
}
use alpha_shadow.Shifts.Engine.{
  rethrown, new_shift, write_open, insert_open, open_shift_tx, write_close, close_locked,
  close_shift_tx,
}

pub different : (a b : Text) {u : Unit {0}} → guard (not (text_beq a b)) validation ≡ ok u → a ≢ b
different a b h e = grind (arith, guard-not (text_beq a b) validation h, (text_beq_iff a b).1 e)

pub none-of : (o : Option ShiftRecord) → is_none o ≡ true → o ≡ none
none-of none h = refl
none-of (some s) h = cc

pub open-of : (s : ShiftStatus) → is_open s ≡ true → s ≡ open_shift
open-of open_shift h = refl
open-of closed h = cc

pub found-eq-ok : {A : Type 0} (o : Option A) {a : A} → found o ≡ ok a → o ≡ some a
found-eq-ok none h = cc
found-eq-ok (some b) h = cc
