-- ===== src/Payments/Engine/Effects.antt =====
-- What `recordPayment` has checked and written when it succeeds.
use alpha_shadow.Prelude.{
  ◌≡◌, inl, inr, sym, ap, ◌∙◌, true, ◌&&◌, Option, none, some, pos, eqb_ℤ, List, ◌∷◌, Text, text_eq,
  ok, err, >>=-eq-ok, ok-injective, not_found, cashier_shift_required, payment_method_unavailable,
  validation, guard, guard-eq-ok, err-not-ok, if◌then◌else◌, Bool-cases,
}
use alpha_shadow.Prelude.Transactions.{some_or, some_or-eq-ok, lift-then-ok}
use alpha_shadow.Shifts.Checks.{open_shift, ShiftRecord, is_open}
use alpha_shadow.Shifts.Engine.Effects.{open-of}
use alpha_shadow.Payments.Records.{
  PaymentMethodRecord, PaymentRecord, PaymentWrite, bump_order_revision, bump_shift_revision,
  insert_payment, post_payment_journal_entry, PaymentReads,
}
use alpha_shadow.Payments.Collect.{
  RecordPaymentInput, takes_payment, usable_method, serves_branch, standing_shift, Gate,
  locked_open_shift, prepare_gate, Tender, prepare_tender,
}
use alpha_shadow.Payments.Replay.{RecordedPayment}
use alpha_shadow.Payments.Engine.{
  new_payment, journal_entry, remaining_after, recorded_payment, settle, write_payment,
  insert_tender, collect_at_shift, collect_new,
}
use alpha_shadow.Payments.Engine.Net.{IsTender, prepare_tender-IsTender}

-- The order takes payments, the method is active and serves the branch of the order, and the shift
-- is the locked one of the cashier at that branch, and open.
pub record IsGate (reads : PaymentReads) (w : List PaymentWrite) (input : RecordPaymentInput)
    (gate : Gate) : Type 0 where
  pub found_shift : ShiftRecord
  pub loaded : reads.load_order_financial_snapshot w input.order_id ≡ some gate.snapshot
  pub takes : takes_payment gate.snapshot.payment_status ≡ true
  pub is_method : reads.load_payment_method w input.payment_method_id ≡ some gate.method
  pub usable :
      (gate.method.is_active && serves_branch gate.method.branch_id gate.snapshot.branch_id) ≡ true
  pub at_branch :
      reads.find_open_shift_for_cashier w input.cashier_user_id gate.snapshot.branch_id
      ≡ some found_shift
  pub locked : reads.lock_shift w found_shift.id ≡ some gate.shift
  pub standing : gate.shift.status ≡ open_shift

usable_method-eq-ok :
    (m : Option PaymentMethodRecord) (branch : Text) {method : PaymentMethodRecord}
    → usable_method m branch ≡ ok method
    → (m ≡ some method) × ((method.is_active && serves_branch method.branch_id branch) ≡ true)
usable_method-eq-ok none branch h = cc
usable_method-eq-ok (some m) branch h =
    elim (Bool-cases (m.is_active && serves_branch m.branch_id branch)) [
      | inl passes ↦
          let same =
            ok-injective
              (ap (λ b. if b then ok m else err payment_method_unavailable) (sym passes) ∙ h) in
          (
            ap some same,
            ap (λ n. n.is_active && serves_branch n.branch_id branch) (sym same) ∙ passes,
          )
      | inr fails ↦ absurd (
          err-not-ok (ap (λ b. if b then ok m else err payment_method_unavailable) (sym fails) ∙ h))
    ]

standing_shift-eq-ok :
    (s : Option ShiftRecord) {shift : ShiftRecord}
    → standing_shift s ≡ ok shift
    → (s ≡ some shift) × (shift.status ≡ open_shift)
standing_shift-eq-ok none h = cc
standing_shift-eq-ok (some s) h = elim (Bool-cases (is_open s.status)) [
  | inl passes ↦
      let same =
        ok-injective (ap (λ b. if b then ok s else err cashier_shift_required) (sym passes) ∙ h) in
      (ap some same, ap (λ t. t.status) (sym same) ∙ open-of s.status passes)
  | inr fails ↦
      absurd (err-not-ok (ap (λ b. if b then ok s else err cashier_shift_required) (sym fails) ∙ h))
]

module _ (reads : PaymentReads) where
  pub locked_open_shift-eq-ok :
      (w : List PaymentWrite) (user branch : Text) {shift : ShiftRecord}
      → locked_open_shift reads w user branch ≡ ok shift
      → (found : ShiftRecord) × (reads.find_open_shift_for_cashier w user branch ≡ some found)
        × (reads.lock_shift w found.id ≡ some shift)
        × (shift.status ≡ open_shift)
  unfolding locked_open_shift
  locked_open_shift-eq-ok w user branch h =
      let (found, is, h1) =
        >>=-eq-ok (some_or cashier_shift_required (reads.find_open_shift_for_cashier w user branch))
          _ h in
      let (locked, standing) = standing_shift-eq-ok (reads.lock_shift w found.id) h1 in
      (found, some_or-eq-ok cashier_shift_required _ is, locked, standing)

  prepare_gate-IsGate :
      (w : List PaymentWrite) (input : RecordPaymentInput) {gate : Gate}
      → prepare_gate reads w input ≡ ok gate
      → IsGate reads w input gate
  unfolding prepare_gate
  prepare_gate-IsGate w input h =
      let (snapshot, loaded, h1) =
        >>=-eq-ok (some_or not_found (reads.load_order_financial_snapshot w input.order_id)) _ h in
      let (_, takes, h2) =
        >>=-eq-ok (guard (takes_payment snapshot.payment_status) validation) _ h1 in
      let (method, usable, h3) =
        >>=-eq-ok
          (usable_method (reads.load_payment_method w input.payment_method_id) snapshot.branch_id) _
          h2 in
      let (shift, standing, h4) =
        >>=-eq-ok (locked_open_shift reads w input.cashier_user_id snapshot.branch_id) _ h3 in
      let (is_method, passes) = usable_method-eq-ok _ snapshot.branch_id usable in
      let (found, at_branch, locked, is_standing) =
        locked_open_shift-eq-ok w input.cashier_user_id snapshot.branch_id standing in
      rw (← ok-injective h4) (record {
        found_shift = found;
        loaded = some_or-eq-ok not_found _ loaded;
        takes = guard-eq-ok _ validation takes;
        is_method = is_method;
        usable = passes;
        at_branch = at_branch;
        locked = locked;
        standing = is_standing;
      })

  -- A payment that is newly recorded from the writes `w`.
  pub record Collected (key : Option Text) (input : RecordPaymentInput) (w w' : List PaymentWrite)
      (r : RecordedPayment) : Type 0 where
    pub gate : Gate
    pub tender : Tender
    pub payment : PaymentRecord
    pub passed : IsGate reads (bump_order_revision input.order_id ∷ w) input gate
    pub amounts : IsTender gate.snapshot gate.method input tender
    pub inserted :
        reads.inserted_payment
          (bump_shift_revision gate.shift.id ∷ bump_order_revision input.order_id ∷ w)
          (new_payment key input gate tender)
        ≡ ok payment
    pub result : r ≡ recorded_payment tender payment
    pub written :
        w'
        ≡ settle (eqb_ℤ (remaining_after tender) (pos 0)) input payment (
            post_payment_journal_entry (journal_entry input gate tender payment)
            ∷ insert_payment (new_payment key input gate tender)
            ∷ bump_shift_revision gate.shift.id
            ∷ bump_order_revision input.order_id
            ∷ w)

  pub collect_new-Collected :
      (key : Option Text) (input : RecordPaymentInput) (w : List PaymentWrite)
      {w' : List PaymentWrite} {r : RecordedPayment}
      → collect_new reads key input w ≡ (ok r, w')
      → Collected key input w w' r
  collect_new-Collected key input w {w'} {r} h =
      let w1 : List PaymentWrite = bump_order_revision input.order_id ∷ w in
      let (gate, ready, h1) =
        lift-then-ok (prepare_gate reads w1 input) (collect_at_shift reads key input) h in
      let w2 : List PaymentWrite = bump_shift_revision gate.shift.id ∷ w1 in
      let (tender, due, h2) =
        lift-then-ok (prepare_tender gate.snapshot gate.method input)
          (insert_tender reads key input gate) h1 in
      let (payment, inserted, h3) =
        lift-then-ok (reads.inserted_payment w2 (new_payment key input gate tender))
          (write_payment reads key input gate tender) h2 in
      record {
        gate = gate;
        tender = tender;
        payment = payment;
        passed = prepare_gate-IsGate w1 input ready;
        amounts = prepare_tender-IsTender gate.snapshot gate.method input due;
        inserted = inserted;
        result = sym (ok-injective (ap (λ p. p.0) h3));
        written = sym (ap (λ p. p.1) h3);
      }
