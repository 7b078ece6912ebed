-- ===== src/Shifts/Engine/Effects/Closing.antt =====
-- What the close of a shift has checked and written when it succeeds.
use alpha_shadow.Prelude.{
  ◌+ℤ◌, ◌<ℤ◌, ◌≤ℤ◌, ℕ, ◌≡◌, ◌≢◌, true, some, int, ℤ, pos, List, [], ◌∷◌, text_eq, ok,
}
use alpha_shadow.Money.Decimal.{non_negative_decimal_text_to_minor, decimal_text_to_minor}
use alpha_shadow.Shifts.Counts.{VarianceType, overage, shortage, exact}
use alpha_shadow.Shifts.Counts.Total.{Counted}
use alpha_shadow.Shifts.Checks.{
  open_shift, ShiftRecord, CloseShiftInput, CloseValues, ShiftWrite, insert_cash_count_details,
  bump_shift_revision, close_shift_row, close_count, ShiftReads, shift_close_permission_key,
}

-- A variance of that kind: the count is above, below or at the float and the recorded sales.
abbrev pub IsVariance : VarianceType → ℤ → ℤ → ℤ → Type 0
IsVariance overage counted float recorded = float +ℤ recorded <ℤ counted
IsVariance shortage counted float recorded = counted <ℤ float +ℤ recorded
IsVariance exact counted float recorded =
    (counted ≤ℤ float +ℤ recorded) × (float +ℤ recorded ≤ℤ counted)

-- What a close from the writes `w` has checked and written; `before` is the store of its first
-- transaction.
pub record Closed (before reads : ShiftReads) (input : CloseShiftInput) (w w' : List ShiftWrite)
    : Type 0 where
  pub seen : ShiftRecord
  pub shift : ShiftRecord
  pub values : CloseValues
  pub digits : ℕ
  pub counted : ℤ
  pub float : ℤ
  pub recorded : ℤ
  pub seen_before : before.load_shift [] input.shift_id ≡ some seen
  pub locked : reads.load_shift w input.shift_id ≡ some shift
  pub authorized :
      before.check input.closed_by_user_id shift_close_permission_key seen.branch_id true ≡ ok tt
  pub two_people : input.closed_by_user_id ≢ input.close_verified_by_user_id
  pub was_open : shift.status ≡ open_shift
  pub is_count : Counted digits input.close_counts (pos 0) counted
  pub is_float :
      non_negative_decimal_text_to_minor shift.starting_float (int (pos digits)) ≡ ok float
  pub is_recorded :
      decimal_text_to_minor values.recorded_cash_sales (int (pos digits)) ≡ ok recorded
  pub is_sum :
      values.recorded_cash_sales
      ≡ reads.sum_completed_cash_payments_text
          (bump_shift_revision input.shift_id ∷ w)
          input.shift_id
  pub is_variance : IsVariance values.variance_kind counted float recorded
  pub written :
      w'
      ≡ close_shift_row input.shift_id values
        ∷ insert_cash_count_details input.shift_id close_count input.close_counts
        ∷ bump_shift_revision input.shift_id
        ∷ w

module _ (reads : ShiftReads) where
  record Balanced (w : List ShiftWrite) (input : CloseShiftInput) (shift : ShiftRecord)
      (values : CloseValues) : Type 0 where
    digits : ℕ
    counted : ℤ
    float : ℤ
    recorded : ℤ
    was_open : shift.status ≡ open_shift
    is_count : Counted digits input.close_counts (pos 0) counted
    is_float : non_negative_decimal_text_to_minor shift.starting_float (int (pos digits)) ≡ ok float
    is_recorded : decimal_text_to_minor values.recorded_cash_sales (int (pos digits)) ≡ ok recorded
    is_sum : values.recorded_cash_sales ≡ reads.sum_completed_cash_payments_text w input.shift_id
    is_variance : IsVariance values.variance_kind counted float recorded

  record CloseGate (before : ShiftReads) (input : CloseShiftInput) : Type 0 where
    seen : ShiftRecord
    seen_before : before.load_shift [] input.shift_id ≡ some seen
    authorized :
        before.check input.closed_by_user_id shift_close_permission_key seen.branch_id true ≡ ok tt
    two_people : input.closed_by_user_id ≢ input.close_verified_by_user_id
