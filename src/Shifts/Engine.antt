-- ===== src/Shifts/Engine.antt =====
-- application/engines/shifts/shift-engine.ts: `openShift` and `closeShift`. The clock and the new
-- shift's random id are the database's and the platform's, and are left out of what is written.
pub mod Effects
use alpha_shadow.Prelude.{
  ℕ, Option, none, some, List, [], ◌∷◌, Text, Error, Result, ok, err, unique_violation, conflict,
}
use alpha_shadow.Prelude.Transactions.{Tx, and_then, ◌>>=◌, ◌>>◌, lift, attempt, read, write}
use alpha_shadow.Shifts.Checks.{
  ShiftRecord, OpenShiftInput, CloseShiftInput, NewShift, CloseValues, ShiftWrite, insert_shift,
  insert_cash_count_details, bump_shift_revision, close_shift_row, open_count, close_count,
  ShiftReads, found, prepare_open, authorize_close, prepare_close,
}

-- The constraint that allows a cashier one open shift is reported as a conflict.
unfoldable pub rethrown : {A : Type 0} → Result A → Result A
rethrown (ok a) = ok a
rethrown (err unique_violation) = err conflict
rethrown (err e) = err e

abbrev pub new_shift : OpenShiftInput → Text → NewShift
new_shift input float = record {
  branch_id = input.branch_id;
  cashier_id = input.cashier_user_id;
  opened_by_id = input.opened_by_user_id;
  open_verified_by_id = input.open_verified_by_user_id;
  starting_float = float;
}

module _ (reads : ShiftReads) where
  abbrev pub write_open : OpenShiftInput → Text → ShiftRecord → Tx ShiftWrite ShiftRecord
  write_open input float shift = do
    write (insert_shift (new_shift input float))
    write (insert_cash_count_details shift.id open_count input.open_counts)
    lift (ok shift)

  abbrev pub insert_open : OpenShiftInput → Text → Tx ShiftWrite ShiftRecord
  insert_open input float = do
    shift ← attempt (λ w. rethrown (reads.inserted_shift w (new_shift input float)))
    write_open input float shift

  -- `openShift`.
  unfoldable pub open_shift_tx : OpenShiftInput → Tx ShiftWrite ShiftRecord
  open_shift_tx input = do
    float ← attempt (λ w. prepare_open reads w input)
    insert_open input float

  abbrev pub write_close : CloseShiftInput → CloseValues → Tx ShiftWrite ShiftRecord
  write_close input values = do
    write (insert_cash_count_details input.shift_id close_count input.close_counts)
    write (close_shift_row input.shift_id values)
    read (λ w. reads.closed_shift w input.shift_id)

  abbrev pub close_locked : CloseShiftInput → ShiftRecord → Tx ShiftWrite ShiftRecord
  close_locked input shift = do
    write (bump_shift_revision input.shift_id)
    values ← attempt (λ w. prepare_close reads w input shift)
    write_close input values

  -- `closeShift`. Its first transaction has the store `before`, since the store may change between
  -- the two.
  unfoldable pub close_shift_tx : ShiftReads → CloseShiftInput → Tx ShiftWrite ShiftRecord
  close_shift_tx before input = do
    attempt (λ w. authorize_close before [] input)
    shift ← attempt (λ w. found (reads.load_shift w input.shift_id))
    close_locked input shift
