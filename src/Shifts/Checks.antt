-- ===== src/Shifts/Checks.antt =====
-- application/engines/shifts/shift-engine.ts: the records of a shift, and what the engine checks
-- before it writes, in the order of the code.
use alpha_shadow.Prelude.{
  ℕ, Bool, true, false, not, if◌then◌else◌, Option, none, some, int, ℤ, pos, ◌+ℤ◌, List, [], ◌∷◌,
  Text, text_eq, ◌===◌, codes, Result, ok, err, ◌>>=◌, ◌>>◌, guard, validation, not_found, conflict,
}
use alpha_shadow.Money.Currency.{currency_code}
use alpha_shadow.Money.Decimal.{
  storage_minor_unit_digits, non_negative_decimal_text_to_minor, decimal_text_to_minor,
  minor_to_decimal_text,
}
use alpha_shadow.Shifts.Counts.{
  CashCountLineInput, VarianceType, validate_counts, variance_of, variance_type,
}

pub data ShiftStatus : Type 0 where
  open_shift closed : ShiftStatus

pub data CashCountType : Type 0 where
  open_count close_count : CashCountType

pub record ShiftRecord : Type 0 where
  pub id : Text
  pub branch_id : Text
  pub starting_float : Text
  pub status : ShiftStatus
  pub counted_cash : Option Text

pub record ShiftBranch : Type 0 where
  pub is_active : Bool
  pub base_currency_code : Text

pub record CashCountDetailRecord : Type 0 where
  pub count_type : CashCountType
  pub subtotal : Text

pub record OpenShiftInput : Type 0 where
  pub branch_id : Text
  pub cashier_user_id : Text
  pub opened_by_user_id : Text
  pub open_verified_by_user_id : Text
  pub open_counts : List CashCountLineInput

pub record CloseShiftInput : Type 0 where
  pub shift_id : Text
  pub closed_by_user_id : Text
  pub close_verified_by_user_id : Text
  pub close_counts : List CashCountLineInput
  pub notes : Option Text

pub record NewShift : Type 0 where
  pub branch_id : Text
  pub cashier_id : Text
  pub opened_by_id : Text
  pub open_verified_by_id : Text
  pub starting_float : Text

pub record CloseValues : Type 0 where
  pub closed_by_id : Text
  pub close_verified_by_id : Text
  pub counted_cash : Text
  pub recorded_cash_sales : Text
  pub variance_kind : VarianceType
  pub notes : Option Text

pub data ShiftWrite : Type 0 where
  insert_shift : NewShift → ShiftWrite
  insert_cash_count_details : Text → CashCountType → List CashCountLineInput → ShiftWrite
  bump_shift_revision : Text → ShiftWrite
  close_shift_row : Text → CloseValues → ShiftWrite

-- What the engine reads of the store after the writes so far, the shift that an insertion gives,
-- which a constraint may refuse, and the authorization engine, asked for a user, a key, a branch
-- and whether the permission is sensitive.
pub record ShiftReads : Type 0 where
  pub load_shift : List ShiftWrite → Text → Option ShiftRecord
  pub load_branch_for_shift : List ShiftWrite → Text → Option ShiftBranch
  pub user_is_active_member : List ShiftWrite → Text → Bool
  pub find_any_open_shift_for_cashier : List ShiftWrite → Text → Option ShiftRecord
  pub sum_completed_cash_payments_text : List ShiftWrite → Text → Text
  pub load_cash_counts : List ShiftWrite → Text → List CashCountDetailRecord
  pub inserted_shift : List ShiftWrite → NewShift → Result ShiftRecord
  pub closed_shift : List ShiftWrite → Text → ShiftRecord
  pub check : Text → Text → Text → Bool → Result (Unit {0})

abbrev pub shift_open_permission_key : Text
shift_open_permission_key = codes "shift:open"

abbrev pub shift_close_permission_key : Text
shift_close_permission_key = codes "shift:close"

abbrev pub shift_x_report_permission_key : Text
shift_x_report_permission_key = codes "shift:x_report"

abbrev pub is_open : ShiftStatus → Bool
is_open open_shift = true
is_open closed = false

abbrev pub is_none : Option ShiftRecord → Bool
is_none none = true
is_none (some s) = false

abbrev pub found : {A : Type 0} → Option A → Result A
found none = err not_found
found (some a) = ok a

-- `!branch?.isActive`.
abbrev pub active_branch : Option ShiftBranch → Result ShiftBranch
active_branch none = err not_found
active_branch (some branch) = if branch.is_active then ok branch else err not_found

-- `storageMinorUnitDigits(currencyCode(branch.baseCurrencyCode))`.
abbrev pub branch_digits : ShiftBranch → Result ℕ
branch_digits branch = do
  code ← currency_code branch.base_currency_code
  storage_minor_unit_digits code

module _ (reads : ShiftReads) (w : List ShiftWrite) where
  unfoldable pub assert_members : List Text → Result (Unit {0})
  assert_members [] = ok tt
  assert_members (user ∷ rest) = do
    guard (reads.user_is_active_member w user) validation
    assert_members rest

  -- The float of a shift that may be opened, as text.
  unfoldable pub prepare_open : OpenShiftInput → Result Text
  prepare_open input = do
    reads.check input.opened_by_user_id shift_open_permission_key input.branch_id true
    guard (not (input.opened_by_user_id === input.open_verified_by_user_id)) validation
    branch ← active_branch (reads.load_branch_for_shift w input.branch_id)
    digits ← branch_digits branch
    float ← validate_counts input.open_counts digits
    assert_members
        (input.cashier_user_id ∷ input.opened_by_user_id ∷ input.open_verified_by_user_id ∷ [])
    guard (is_none (reads.find_any_open_shift_for_cashier w input.cashier_user_id)) conflict
    minor_to_decimal_text float (int (pos digits))

  -- The first transaction of the close, the authorization and the two different people.
  unfoldable pub authorize_close : CloseShiftInput → Result (Unit {0})
  authorize_close input = do
    shift ← found (reads.load_shift w input.shift_id)
    reads.check input.closed_by_user_id shift_close_permission_key shift.branch_id true
    guard (not (input.closed_by_user_id === input.close_verified_by_user_id)) validation

  -- What the close writes of a shift that it has locked. The text of the count is computed before
  -- the count's lines are written, since it does not fail at the digits of a branch.
  unfoldable pub prepare_close : CloseShiftInput → ShiftRecord → Result CloseValues
  prepare_close input shift = do
    guard (is_open shift.status) conflict
    branch ← found (reads.load_branch_for_shift w shift.branch_id)
    digits ← branch_digits branch
    counted ← validate_counts input.close_counts digits
    assert_members (input.closed_by_user_id ∷ input.close_verified_by_user_id ∷ [])
    let recorded_cash_sales = reads.sum_completed_cash_payments_text w input.shift_id
    float ← non_negative_decimal_text_to_minor shift.starting_float (int (pos digits))
    recorded ← decimal_text_to_minor recorded_cash_sales (int (pos digits))
    counted_text ← minor_to_decimal_text counted (int (pos digits))
    ok (record {
      closed_by_id = input.closed_by_user_id;
      close_verified_by_id = input.close_verified_by_user_id;
      counted_cash = counted_text;
      recorded_cash_sales = recorded_cash_sales;
      variance_kind = variance_type (variance_of counted float recorded);
      notes = input.notes;
    })

-- A subtotal of the close count before the others; those of the open count are left out.
abbrev pub close_part : CashCountType → Result ℤ → Result ℤ → Result ℤ
close_part open_count subtotal later = later
close_part close_count subtotal later = do first ← subtotal; rest ← later; ok (first +ℤ rest)

-- The sum of the subtotals of the close count.
unfoldable pub close_total : ℕ → List CashCountDetailRecord → Result ℤ
close_total digits [] = ok (pos 0)
close_total digits (c ∷ rest) =
    close_part c.count_type (decimal_text_to_minor c.subtotal (int (pos digits)))
      (close_total digits rest)

-- The counted cash of the row, or else the close count.
unfoldable pub counted_of : ℕ → Option Text → List CashCountDetailRecord → Result ℤ
counted_of digits none counts = close_total digits counts
counted_of digits (some text) counts = non_negative_decimal_text_to_minor text (int (pos digits))

pub record XReport : Type 0 where
  pub shift : ShiftRecord
  pub counts : List CashCountDetailRecord
  pub recorded_cash_sales : Text
  pub computed_variance : Text
  pub computed_variance_type : VarianceType

-- `xReport`, which only reads. Its first transaction has the store `before`.
unfoldable pub x_report : ShiftReads → ShiftReads → Text → Text → Result XReport
x_report before reads actor shift_id = do
  shift ← found (before.load_shift [] shift_id)
  before.check actor shift_x_report_permission_key shift.branch_id false
  branch ← found (reads.load_branch_for_shift [] shift.branch_id)
  digits ← branch_digits branch
  let counts = reads.load_cash_counts [] shift_id
  let recorded_cash_sales = reads.sum_completed_cash_payments_text [] shift_id
  recorded ← decimal_text_to_minor recorded_cash_sales (int (pos digits))
  float ← non_negative_decimal_text_to_minor shift.starting_float (int (pos digits))
  counted ← counted_of digits shift.counted_cash counts
  let variance = variance_of counted float recorded
  text ← minor_to_decimal_text variance (int (pos digits))
  ok (record {
    shift = shift;
    counts = counts;
    recorded_cash_sales = recorded_cash_sales;
    computed_variance = text;
    computed_variance_type = variance_type variance;
  })
