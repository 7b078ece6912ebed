-- ===== src/Payments/Engine/Outcome.antt =====
-- The outcomes of `recordPayment`: a new payment, or the replay of a recorded one.
use alpha_shadow.Prelude.{
  ◌≡◌, ◌⊎◌, inl, inr, refl, sym, ap, ◌∙◌, Option, none, some, List, [], Text, Error, Result, ok,
  err, >>=-eq-ok, err-not-ok, not_found, Bool-cases, if◌then◌else◌,
}
use alpha_shadow.Prelude.Transactions.{some_or, some_or-eq-ok, lift-then-ok, run}
use alpha_shadow.Payments.Totals.{OrderFinancialSnapshot}
use alpha_shadow.Payments.Records.{PaymentRecord, PaymentWrite, PaymentReads}
use alpha_shadow.Payments.Collect.{RecordPaymentInput, normalize_idempotency_key}
use alpha_shadow.Payments.Replay.{
  RecordedPayment, payments_collect_permission_key, build_replay, authorize_collect,
}
use alpha_shadow.Payments.Engine.{
  collected_before, collect_or_replay, collect_locked, collect, is_unique_violation, replay_found,
  replay_after_conflict, or_replay, record_with_key, record_payment,
}
use alpha_shadow.Payments.Engine.Effects.{Collected, collect_new-Collected}

-- A payment that a store has recorded under the key, and its replay.
pub record Replayed (store : PaymentReads) (w : List PaymentWrite) (key : Option Text)
    (input : RecordPaymentInput) (r : RecordedPayment) : Type 0 where
  pub text : Text
  pub existing : PaymentRecord
  pub keyed : key ≡ some text
  pub recorded : store.load_payment_by_idempotency_key w text ≡ some existing
  pub replay : build_replay store w existing input ≡ ok r

abbrev pub Outcome :
    PaymentReads
    → PaymentReads
    → Option Text
    → RecordPaymentInput
    → List PaymentWrite
    → List PaymentWrite
    → RecordedPayment
    → Type 0
Outcome reads fresh key input w w' r =
    Collected reads key input w w' r
    ⊎ ((w' ≡ w) × (Replayed reads w key input r ⊎ Replayed fresh [] key input r))

module _ {reads fresh : PaymentReads} {input : RecordPaymentInput} {key : Option Text} where
  of_cases :
      {w w' : List PaymentWrite} {r : RecordedPayment}
      → Collected reads key input w w' r ⊎ ((w' ≡ w) × Replayed reads w key input r)
      → Outcome reads fresh key input w w' r
  of_cases (inl new) = inl new
  of_cases (inr (same, replay)) = inr (same, inl replay)

module _ (reads fresh : PaymentReads) (input : RecordPaymentInput) where
  -- The two outcomes of the transaction of `recordPayment`.
  collect_or_replay-cases :
      (key : Option Text) (found : Option PaymentRecord) (w : List PaymentWrite)
      {w' : List PaymentWrite} {r : RecordedPayment}
      → collected_before reads key w ≡ found
      → collect_or_replay reads key input found w ≡ (ok r, w')
      → Collected reads key input w w' r ⊎ ((w' ≡ w) × Replayed reads w key input r)
  collect_or_replay-cases key none w is h = inl (collect_new-Collected reads key input w h)
  collect_or_replay-cases none (some existing) w is h = cc
  collect_or_replay-cases (some text) (some existing) w is h = inr (
    sym (ap (λ p. p.1) h),
    record {
      text = text;
      existing = existing;
      keyed = refl;
      recorded = is;
      replay = ap (λ p. p.0) h;
    },
  )

  collect-cases :
      (key : Option Text) (w : List PaymentWrite) {w' : List PaymentWrite} {r : RecordedPayment}
      → collect reads key input w ≡ (ok r, w')
      → Collected reads key input w w' r ⊎ ((w' ≡ w) × Replayed reads w key input r)
  unfolding collect
  collect-cases key w h =
      let (locked, _, h1) =
        lift-then-ok (some_or not_found (reads.lock_order w input.order_id))
          (collect_locked reads key input) h in
      collect_or_replay-cases key (collected_before reads key w) w refl h1

  replay_found-Replayed :
      (text : Text) (e : Error) (found : Option PaymentRecord) {r : RecordedPayment}
      → fresh.load_payment_by_idempotency_key [] text ≡ found
      → replay_found fresh input e found ≡ ok r
      → Replayed fresh [] (some text) input r
  replay_found-Replayed text e none is h = absurd (err-not-ok h)
  replay_found-Replayed text e (some existing) is h = record {
    text = text;
    existing = existing;
    keyed = refl;
    recorded = is;
    replay = h;
  }

  replay_after_conflict-Replayed :
      (text : Text) (e : Error) {r : RecordedPayment}
      → replay_after_conflict fresh text input e ≡ ok r
      → Replayed fresh [] (some text) input r
  unfolding replay_after_conflict
  replay_after_conflict-Replayed text e h =
      let probe = replay_found fresh input e (fresh.load_payment_by_idempotency_key [] text) in
      elim (Bool-cases (is_unique_violation e)) [
        | inl same ↦
            replay_found-Replayed text e (fresh.load_payment_by_idempotency_key [] text) refl
              (ap (λ b. if b then probe else err e) (sym same) ∙ h)
        | inr other ↦ absurd (err-not-ok (ap (λ b. if b then probe else err e) (sym other) ∙ h))
      ]

  -- From the outcome of the transaction to that of the call.
  or_replay-cases :
      (key : Option Text) (w : List PaymentWrite) (p : Result RecordedPayment × List PaymentWrite)
      {w' : List PaymentWrite} {r : RecordedPayment}
      → collect reads key input w ≡ p
      → or_replay fresh key input (run (λ v. p) w) ≡ (ok r, w')
      → Outcome reads fresh key input w w' r
  or_replay-cases none w (err e, v) is h = absurd (err-not-ok (ap (λ p. p.0) h))
  or_replay-cases (some text) w (err e, v) is h =
      inr (sym (ap (λ p. p.1) h), inr (replay_after_conflict-Replayed text e (ap (λ p. p.0) h)))
  or_replay-cases none w (ok s, v) is h = of_cases (collect-cases none w (is ∙ h))
  or_replay-cases (some text) w (ok s, v) is h = of_cases (collect-cases (some text) w (is ∙ h))

-- The authorization and the key of a payment, and its outcome.
pub record PaymentOutcome (before reads fresh : PaymentReads) (input : RecordPaymentInput)
    (w w' : List PaymentWrite) (r : RecordedPayment) : Type 0 where
  pub snapshot : OrderFinancialSnapshot
  pub key : Option Text
  pub loaded : before.load_order_financial_snapshot [] input.order_id ≡ some snapshot
  pub authorized :
      before.check input.cashier_user_id payments_collect_permission_key input.token_sec_v
        snapshot.branch_id
      ≡ ok tt
  pub usable : normalize_idempotency_key input.idempotency_key ≡ ok key
  pub outcome : Outcome reads fresh key input w w' r

-- A `recordPayment` that succeeds was authorized at the branch of the order with a usable key or
-- none. Either it recorded a new payment: the order takes payments, the method is active and
-- serves the branch, the shift is the cashier's and open when locked, the amounts add up, and it
-- wrote the two revisions, the payment and its journal entry, with the cost of goods and the
-- status `paid` when nothing remains to be paid, and no more. Or it wrote nothing, and the result
-- replays a payment recorded under the key.
pub record_payment-eq-ok :
    (before reads fresh : PaymentReads) (input : RecordPaymentInput) (w : List PaymentWrite)
    {w' : List PaymentWrite} {r : RecordedPayment}
    → record_payment before reads fresh input w ≡ (ok r, w')
    → PaymentOutcome before reads fresh input w w' r
unfolding record_payment authorize_collect
record_payment-eq-ok before reads fresh input w h =
    let (_, passed, h1) = lift-then-ok (authorize_collect before input) _ h in
    let (key, usable, h2) =
      lift-then-ok (normalize_idempotency_key input.idempotency_key)
        (record_with_key reads fresh input) h1 in
    let (snapshot, loaded, checked) =
      >>=-eq-ok (some_or not_found (before.load_order_financial_snapshot [] input.order_id)) _
        passed in
    record {
      snapshot = snapshot;
      key = key;
      loaded = some_or-eq-ok not_found _ loaded;
      authorized = checked;
      usable = usable;
      outcome = or_replay-cases reads fresh input key w (collect reads key input w) refl h2;
    }
