-- ===== src/Payments/Lifecycle/Effects.antt =====
-- What the reversal of a payment has checked and written when it succeeds.
use alpha_shadow.Prelude.{◌≡◌, some, List, [], ◌∷◌, ◌++◌, Text, codes, ok}
use alpha_shadow.Shifts.Checks.{open_shift, ShiftRecord}
use alpha_shadow.Payments.Totals.{completed, OrderPaymentStatus, OrderFinancialSnapshot}
use alpha_shadow.Payments.Records.{
  PaymentRecord, PaymentWrite, bump_order_revision, bump_shift_revision, set_order_payment_status,
  post_payment_journal_reversal_entry, append_audit_evidence, PaymentReads,
}
use alpha_shadow.Payments.Reversal.{
  status_of, permission_of, LifecycleChange, ReversalGate, next_status,
}
use alpha_shadow.Payments.Lifecycle.{reversal_write, audit_action, stock_after}

-- The payment is completed under the lock, and the actor has the open shift at the order's branch.
pub record IsReversible (reads : PaymentReads) (w : List PaymentWrite) (change : LifecycleChange)
    (order_id : Text) (gate : ReversalGate) : Type 0 where
  pub found_shift : ShiftRecord
  pub loaded : reads.load_payment w change.payment_id ≡ some gate.fresh
  pub still_completed : gate.fresh.status ≡ completed
  pub is_order : reads.load_order_financial_snapshot w order_id ≡ some gate.pre
  pub at_branch :
      reads.find_open_shift_for_cashier w change.actor_user_id gate.pre.branch_id ≡ some found_shift
  pub locked : reads.lock_shift w found_shift.id ≡ some gate.shift
  pub standing : gate.shift.status ≡ open_shift

-- The writes up to the audit evidence.
abbrev pub evidence :
    PaymentReads
    → LifecycleChange
    → PaymentRecord
    → ReversalGate
    → List PaymentWrite
    → List PaymentWrite
evidence reads change existing gate w =
    let now = reads.clock w in
    append_audit_evidence change.actor_user_id (audit_action change.to)
      (codes "payments/" ++ change.payment_id) existing.status (status_of change.to)
    ∷ post_payment_journal_reversal_entry change.payment_id change.actor_user_id now
    ∷ reversal_write change now
    ∷ w

-- The reversal of a completed payment from the writes `w`.
pub record Reversed (reads : PaymentReads) (change : LifecycleChange) (existing : PaymentRecord)
    (w w' : List PaymentWrite) (row : PaymentRecord) : Type 0 where
  pub gate : ReversalGate
  pub status : OrderPaymentStatus
  pub passed :
      IsReversible reads (bump_order_revision existing.order_id ∷ w) change existing.order_id gate
  pub is_status :
      next_status reads
        (evidence reads change existing gate
          (bump_shift_revision gate.shift.id ∷ bump_order_revision existing.order_id ∷ w))
        existing.order_id
      ≡ ok status
  pub written :
      stock_after reads change.to gate.pre.branch_id existing.order_id change.actor_user_id (
        set_order_payment_status existing.order_id status
        ∷ evidence reads change existing gate
            (bump_shift_revision gate.shift.id ∷ bump_order_revision existing.order_id ∷ w))
      ≡ (ok tt, w')

-- The authorization of a reversal, and the reversal.
pub record ReversalOutcome (reads before seen : PaymentReads) (change : LifecycleChange)
    (token : Text) (w w' : List PaymentWrite) (row : PaymentRecord) : Type 0 where
  pub payment : PaymentRecord
  pub snapshot : OrderFinancialSnapshot
  pub existing : PaymentRecord
  pub loaded : before.load_payment [] change.payment_id ≡ some payment
  pub is_order : before.load_order_financial_snapshot [] payment.order_id ≡ some snapshot
  pub authorized :
      before.check change.actor_user_id (permission_of change.to) (some token) snapshot.branch_id
      ≡ ok tt
  pub is_seen : seen.load_payment [] change.payment_id ≡ some existing
  pub was_completed : existing.status ≡ completed
  pub reversed : Reversed reads change existing w w' row
