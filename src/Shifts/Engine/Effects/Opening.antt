-- ===== src/Shifts/Engine/Effects/Opening.antt =====
-- What the opening of a shift has checked and written when it succeeds.
use alpha_shadow.Prelude.{
  guard-eq-ok, ℕ, ◌≡◌, ◌≢◌, sym, ap, ◌∙◌, true, not, none, int, ℤ, pos, List, [], ◌∷◌, Text,
  text_eq, ◌===◌, ok, guard, >>=-eq-ok, ok-injective, validation, conflict,
}
use alpha_shadow.Prelude.Transactions.{lift-then-ok}
use alpha_shadow.Money.Decimal.{minor_to_decimal_text}
use alpha_shadow.Shifts.Counts.{validate_counts}
use alpha_shadow.Shifts.Counts.Total.{Counted, validate_counts-Counted}
use alpha_shadow.Shifts.Checks.{
  ShiftRecord, OpenShiftInput, ShiftWrite, insert_shift, insert_cash_count_details, open_count,
  ShiftReads, shift_open_permission_key, is_none, active_branch, branch_digits, assert_members,
  prepare_open,
}
use alpha_shadow.Shifts.Engine.{rethrown, new_shift, write_open, insert_open, open_shift_tx}
use alpha_shadow.Shifts.Engine.Effects.{different, none-of}

-- What an opening from the writes `w` has checked and written.
pub record Opened (reads : ShiftReads) (input : OpenShiftInput) (w : List ShiftWrite)
    (shift : ShiftRecord) (w' : List ShiftWrite) : Type 0 where
  pub digits : ℕ
  pub float : ℤ
  pub float_text : Text
  pub authorized :
      reads.check input.opened_by_user_id shift_open_permission_key input.branch_id true ≡ ok tt
  pub two_people : input.opened_by_user_id ≢ input.open_verified_by_user_id
  pub only_one : reads.find_any_open_shift_for_cashier w input.cashier_user_id ≡ none
  pub counted : Counted digits input.open_counts (pos 0) float
  pub printed : minor_to_decimal_text float (int (pos digits)) ≡ ok float_text
  pub written :
      w'
      ≡ insert_cash_count_details shift.id open_count input.open_counts
        ∷ insert_shift (new_shift input float_text)
        ∷ w

module _ (reads : ShiftReads) where
  record Prepared (w : List ShiftWrite) (input : OpenShiftInput) (text : Text) : Type 0 where
    digits : ℕ
    float : ℤ
    authorized :
        reads.check input.opened_by_user_id shift_open_permission_key input.branch_id true ≡ ok tt
    two_people : input.opened_by_user_id ≢ input.open_verified_by_user_id
    only_one : reads.find_any_open_shift_for_cashier w input.cashier_user_id ≡ none
    counted : Counted digits input.open_counts (pos 0) float
    printed : minor_to_decimal_text float (int (pos digits)) ≡ ok text

  prepare_open-eq-ok :
      (w : List ShiftWrite) (input : OpenShiftInput) {text : Text}
      → prepare_open reads w input ≡ ok text
      → Prepared w input text
  unfolding prepare_open
  prepare_open-eq-ok w input h =
      let (u, gate, h1) =
        >>=-eq-ok
          (reads.check input.opened_by_user_id shift_open_permission_key input.branch_id true) _
          h in
      let (_, people, h2) =
        >>=-eq-ok
          (guard (not (input.opened_by_user_id === input.open_verified_by_user_id)) validation) _
          h1 in
      let (branch, _, h3) =
        >>=-eq-ok (active_branch (reads.load_branch_for_shift w input.branch_id)) _ h2 in
      let (digits, _, h4) = >>=-eq-ok (branch_digits branch) _ h3 in
      let (float, counts, h5) = >>=-eq-ok (validate_counts input.open_counts digits) _ h4 in
      let (_, _, h6) =
        >>=-eq-ok
          (assert_members reads w
            (input.cashier_user_id ∷ input.opened_by_user_id ∷ input.open_verified_by_user_id ∷ []))
          _ h5 in
      let (_, free, h7) =
        >>=-eq-ok
          (guard (is_none (reads.find_any_open_shift_for_cashier w input.cashier_user_id)) conflict)
          _ h6 in
      record {
        digits = digits;
        float = float;
        authorized = gate;
        two_people = different input.opened_by_user_id input.open_verified_by_user_id people;
        only_one =
            none-of (reads.find_any_open_shift_for_cashier w input.cashier_user_id)
              (guard-eq-ok _ conflict free);
        counted = validate_counts-Counted input.open_counts digits counts;
        printed = h7;
      }

  -- A shift that is opened is opened by an authorized user and verified by another one, for a
  -- cashier without an open shift, with the sum of an accepted count as its float; the shift
  -- and then its count are written, and no more.
  pub open_shift_tx-eq-ok :
      (input : OpenShiftInput) (w : List ShiftWrite) {w' : List ShiftWrite} {shift : ShiftRecord}
      → open_shift_tx reads input w ≡ (ok shift, w')
      → Opened reads input w shift w'
  unfolding open_shift_tx
  open_shift_tx-eq-ok input w {w'} {shift} h =
      let (text, ready, h1) =
        lift-then-ok (prepare_open reads w input) (insert_open reads input) h in
      let (row, inserted, h2) =
        lift-then-ok (rethrown (reads.inserted_shift w (new_shift input text)))
          (write_open reads input text) h1 in
      let p = prepare_open-eq-ok w input ready in
      record {
        digits = p.digits;
        float = p.float;
        float_text = text;
        authorized = p.authorized;
        two_people = p.two_people;
        only_one = p.only_one;
        counted = p.counted;
        printed = p.printed;
        written =
            sym (ap (λ p. p.1) h2)
            ∙ ap
                (λ s.
                  insert_cash_count_details s.id open_count input.open_counts
                  ∷ insert_shift (new_shift input text)
                  ∷ w)
                (ok-injective (ap (λ p. p.0) h2));
      }
