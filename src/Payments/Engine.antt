-- ===== src/Payments/Engine.antt =====
-- application/engines/payments/payments-engine.ts: `recordPayment`, with the replay of a payment
-- that an idempotency key has already collected.
pub mod Net
pub mod Effects
pub mod Outcome
pub mod Repeat
use alpha_shadow.Prelude.{
  ℕ, Bool, true, false, not, ◌&&◌, ◌||◌, if◌then◌else◌, Option, none, some, int, ℤ, pos, ◌-ℤ◌,
  eqb_ℤ, List, [], ◌∷◌, Text, text_eq, ◌===◌, codes, Error, Result, ok, err, not_found,
  unique_violation,
}
use alpha_shadow.Prelude.Transactions.{
  Tx, and_then, ◌>>=◌, ◌>>◌, lift, attempt, read, write, run, some_or,
}
use alpha_shadow.Payments.Totals.{paid, OrderFinancialSnapshot}
use alpha_shadow.Payments.Records.{
  PaymentRecord, InsertPaymentInput, PostPaymentJournalEntryInput, PaymentWrite,
  bump_order_revision, bump_shift_revision, insert_payment, post_payment_journal_entry,
  post_order_cogs, set_order_payment_status, PaymentReads,
}
use alpha_shadow.Payments.Collect.{
  RecordPaymentInput, normalize_idempotency_key, Gate, prepare_gate, Tender, prepare_tender,
}
use alpha_shadow.Payments.Replay.{RecordedPayment, build_replay, authorize_collect}

abbrev pub new_payment : Option Text → RecordPaymentInput → Gate → Tender → InsertPaymentInput
new_payment key input gate tender = record {
  order_id = input.order_id;
  payment_method_id = gate.method.id;
  amount = tender.amount;
  amount_in_base_currency = tender.amount_in_base_currency;
  exchange_rate_snapshot = tender.gross.exchange_rate_snapshot;
  change_given_amount = tender.change_given_amount;
  shift_id = gate.shift.id;
  created_by = input.cashier_user_id;
  idempotency_key = key;
}

abbrev pub journal_entry :
    RecordPaymentInput → Gate → Tender → PaymentRecord → PostPaymentJournalEntryInput
journal_entry input gate tender payment = record {
  payment_id = payment.id;
  branch_id = gate.snapshot.branch_id;
  currency_code = gate.snapshot.base_currency_code;
  amount_minor = tender.net_base_minor;
  debit_system_purpose = gate.method.clearing_account_system_purpose;
  posted_by_user_id = input.cashier_user_id;
  occurred_at = payment.created_at;
}

abbrev pub remaining_after : Tender → ℤ
remaining_after tender = tender.remaining_before -ℤ tender.net_base_minor

abbrev pub recorded_payment : Tender → PaymentRecord → RecordedPayment
recorded_payment tender payment = record {
  payment = payment;
  order_total_minor = tender.total_minor;
  remaining_balance_minor = remaining_after tender;
  change_given_minor = tender.change_minor;
}

-- The writes of an order that is paid in full.
abbrev pub settle :
    Bool → RecordPaymentInput → PaymentRecord → List PaymentWrite → List PaymentWrite
settle false input payment w = w
settle true input payment w =
    set_order_payment_status input.order_id paid
    ∷ post_order_cogs input.order_id input.cashier_user_id payment.created_at
    ∷ w

module _ (reads : PaymentReads) where
  abbrev pub write_payment :
      Option Text
      → RecordPaymentInput
      → Gate
      → Tender
      → PaymentRecord
      → Tx PaymentWrite RecordedPayment
  write_payment key input gate tender payment = do
    write (insert_payment (new_payment key input gate tender))
    write (post_payment_journal_entry (journal_entry input gate tender payment))
    λ w. (
      ok (recorded_payment tender payment),
      settle (eqb_ℤ (remaining_after tender) (pos 0)) input payment w,
    )

  abbrev pub insert_tender :
      Option Text → RecordPaymentInput → Gate → Tender → Tx PaymentWrite RecordedPayment
  insert_tender key input gate tender = do
    payment ← attempt (λ w. reads.inserted_payment w (new_payment key input gate tender))
    write_payment key input gate tender payment

  abbrev pub collect_at_shift :
      Option Text → RecordPaymentInput → Gate → Tx PaymentWrite RecordedPayment
  collect_at_shift key input gate = do
    write (bump_shift_revision gate.shift.id)
    tender ← lift (prepare_tender gate.snapshot gate.method input)
    insert_tender key input gate tender

  abbrev pub collect_new : Option Text → RecordPaymentInput → Tx PaymentWrite RecordedPayment
  collect_new key input = do
    write (bump_order_revision input.order_id)
    gate ← attempt (λ w. prepare_gate reads w input)
    collect_at_shift key input gate

  -- The payment already collected with a key.
  abbrev pub collected_before : Option Text → List PaymentWrite → Option PaymentRecord
  collected_before none w = none
  collected_before (some key) w = reads.load_payment_by_idempotency_key w key

  abbrev pub collect_or_replay :
      Option Text → RecordPaymentInput → Option PaymentRecord → Tx PaymentWrite RecordedPayment
  collect_or_replay key input none = collect_new key input
  collect_or_replay key input (some existing) = attempt (λ w. build_replay reads w existing input)

  abbrev pub collect_locked :
      Option Text → RecordPaymentInput → Text → Tx PaymentWrite RecordedPayment
  collect_locked key input locked = do
    existing ← read (collected_before key)
    collect_or_replay key input existing

  -- The transaction of `recordPayment`.
  unfoldable pub collect : Option Text → RecordPaymentInput → Tx PaymentWrite RecordedPayment
  collect key input = do
    locked ← attempt (λ w. some_or not_found (reads.lock_order w input.order_id))
    collect_locked key input locked

abbrev pub is_unique_violation : Error → Bool
is_unique_violation unique_violation = true
is_unique_violation _ = false

-- The probe: a key that is not found rethrows the error.
abbrev pub replay_found :
    PaymentReads → RecordPaymentInput → Error → Option PaymentRecord → Result RecordedPayment
replay_found fresh input error none = err error
replay_found fresh input error (some existing) = build_replay fresh [] existing input

-- `replayAfterConflict`, with the store of its fresh transaction.
unfoldable pub replay_after_conflict :
    PaymentReads → Text → RecordPaymentInput → Error → Result RecordedPayment
replay_after_conflict fresh key input error =
    if is_unique_violation error
    then replay_found fresh input error (fresh.load_payment_by_idempotency_key [] key)
    else err error

-- The outcome of the transaction; with a key, an error may become a replay.
abbrev pub or_replay :
    PaymentReads
    → Option Text
    → RecordPaymentInput
    → Result RecordedPayment × List PaymentWrite
    → Result RecordedPayment × List PaymentWrite
or_replay fresh none input outcome = outcome
or_replay fresh (some key) input (ok recorded, w) = (ok recorded, w)
or_replay fresh (some key) input (err error, w) = (replay_after_conflict fresh key input error, w)

abbrev pub record_with_key :
    PaymentReads → PaymentReads → RecordPaymentInput → Option Text → Tx PaymentWrite RecordedPayment
record_with_key reads fresh input key =
    λ w. or_replay fresh key input (run (collect reads key input) w)

-- `recordPayment`: the store `before` is that of its first transaction and of the authorization,
-- `fresh` that of the probe after a conflict.
unfoldable pub record_payment :
    PaymentReads
    → PaymentReads
    → PaymentReads
    → RecordPaymentInput
    → Tx PaymentWrite RecordedPayment
record_payment before reads fresh input = do
  lift (authorize_collect before input)
  key ← lift (normalize_idempotency_key input.idempotency_key)
  record_with_key reads fresh input key
