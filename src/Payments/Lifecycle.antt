-- ===== src/Payments/Lifecycle.antt =====
-- application/engines/payments/payments-engine.ts: `voidPayment` and `refundPayment`, their common
-- `lifecycleChange`, and the stock movements of a refund.
pub mod Stock
pub mod Effects
use alpha_shadow.Prelude.{
  ℕ, Bool, true, false, not, any, if◌then◌else◌, Option, none, some, int, ℤ, pos, neg_ℤ, List, [],
  ◌∷◌, ◌++◌, map, Text, text_eq, ◌===◌, codes, Error, Result, ok, err, not_found,
}
use alpha_shadow.Prelude.Transactions.{
  Tx, and_then, ◌>>=◌, ◌>>◌, lift, attempt, read, write, run, some_or,
}
use alpha_shadow.Shifts.Checks.{ShiftRecord}
use alpha_shadow.Payments.Totals.{
  PaymentStatus, voided, refunded, OrderPaymentStatus, OrderFinancialSnapshot,
}
use alpha_shadow.Payments.Records.{
  PaymentRecord, SaleDeductionAggregate, StockMovementType, void_restoration, waste_refund,
  InsertStockMovementInput, PaymentWrite, bump_order_revision, bump_shift_revision,
  set_order_payment_status, void_payment, refund_payment, post_payment_journal_reversal_entry,
  append_audit_evidence, insert_stock_movement, post_inventory_restoration, PaymentReads,
}
use alpha_shadow.Payments.Reversal.{
  restored_quantity, Reversal, to_voided, to_refunded, status_of, permission_of, ReversalGate,
  authorize_reversal, LifecycleChange, seen_completed, prepare_reversal, next_status,
}

-- The string key of a line and a component.
abbrev pub stock_key : Text → Text → Text
stock_key order_item_id inventory_item_id = order_item_id ++ (58 ∷ inventory_item_id)

-- What a refund knows when it goes through the deductions.
pub record RefundStock : Type 0 where
  pub branch_id : Text
  pub order_id : Text
  pub actor_user_id : Text
  pub fired : List Text
  pub recorded : List Text
  pub occurred_at : ℕ

abbrev pub is_in : Text → List Text → Bool
is_in x xs = any (λ y. y === x) xs

abbrev pub movement : RefundStock → SaleDeductionAggregate → Text → InsertStockMovementInput
movement stock deduction quantity = record {
  branch_id = stock.branch_id;
  inventory_item_id = deduction.inventory_item_id;
  movement_type =
      if not (is_in deduction.order_item_id stock.fired) then void_restoration else waste_refund;
  quantity_delta = quantity;
  order_id = stock.order_id;
  order_item_id = deduction.order_item_id;
  actor_user_id = stock.actor_user_id;
  occurred_at = stock.occurred_at;
}

abbrev pub is_recorded : RefundStock → SaleDeductionAggregate → Bool
is_recorded stock deduction =
    is_in (stock_key deduction.order_item_id deduction.inventory_item_id) stock.recorded

-- `voidReason ?? ''`.
abbrev pub or_empty : Option Text → Text
or_empty none = []
or_empty (some text) = text

abbrev pub reversal_write : LifecycleChange → ℕ → PaymentWrite
reversal_write change now = of_status change.to
  where
    of_status : Reversal → PaymentWrite
    of_status to_voided =
        void_payment change.payment_id change.actor_user_id now (or_empty change.void_reason)
    of_status to_refunded = refund_payment change.payment_id

abbrev pub audit_action : Reversal → Text
audit_action to_voided = codes "payments.void"
audit_action to_refunded = codes "payments.refund"

module _ (reads : PaymentReads) where
  abbrev pub write_movement :
      RefundStock → SaleDeductionAggregate → Text → Tx PaymentWrite (Unit {0})
  write_movement stock deduction quantity = do
    write (insert_stock_movement (movement stock deduction quantity))
    λ w. (
      ok tt,
      post_inventory_restoration (reads.inserted_movement w (movement stock deduction quantity))
            stock.actor_user_id stock.occurred_at
          ∷ w,
    )

  -- One round of the loop.
  abbrev pub restore_one : RefundStock → SaleDeductionAggregate → Tx PaymentWrite (Unit {0})
  restore_one stock deduction = do
    quantity ← lift (restored_quantity (not (is_in deduction.order_item_id stock.fired)) deduction)
    write_movement stock deduction quantity

  unfoldable pub restore_each :
      RefundStock → List SaleDeductionAggregate → Tx PaymentWrite (Unit {0})
  restore_each stock [] w = (ok tt, w)
  restore_each stock (deduction ∷ rest) w =
      let skipped = restore_each stock rest w in
      let restored = and_then (λ _. restore_each stock rest) (restore_one stock deduction w) in
      if is_recorded stock deduction then skipped else restored

  abbrev pub refund_stock : Text → Text → Text → List Text → List PaymentWrite → RefundStock
  refund_stock branch order actor items w = record {
    branch_id = branch;
    order_id = order;
    actor_user_id = actor;
    fired = reads.load_items_with_kitchen_ticket_fired w items;
    recorded = map (λ k. stock_key k.0 k.1) (reads.load_waste_refund_keys w order);
    occurred_at = reads.clock w;
  }

  -- `writeRefundStockMovements`. No items, or no deductions, leave nothing to do.
  unfoldable pub write_refund_stock_movements : Text → Text → Text → Tx PaymentWrite (Unit {0})
  write_refund_stock_movements branch order actor w =
      let items = reads.load_non_voided_order_item_ids w order in
      of_items items (
        restore_each (refund_stock branch order actor items w)
          (reads.load_sale_deductions_for_order_items w items) w)
    where
      of_items :
          List Text → Result (Unit {0}) × List PaymentWrite → Result (Unit {0}) × List PaymentWrite
      of_items [] outcome = (ok tt, w)
      of_items (item ∷ more) outcome = outcome

  abbrev pub stock_after : Reversal → Text → Text → Text → Tx PaymentWrite (Unit {0})
  stock_after to_voided branch order actor = lift (ok tt)
  stock_after to_refunded branch order actor = write_refund_stock_movements branch order actor

  abbrev pub finish_reversal :
      LifecycleChange
      → PaymentRecord
      → ReversalGate
      → PaymentRecord
      → OrderPaymentStatus
      → Tx PaymentWrite PaymentRecord
  finish_reversal change existing gate updated status = do
    write (set_order_payment_status existing.order_id status)
    stock_after change.to gate.pre.branch_id existing.order_id change.actor_user_id
    lift (ok updated)

  -- From the row that the change gives to the end of the transaction.
  abbrev pub journal_reversal :
      LifecycleChange
      → PaymentRecord
      → ReversalGate
      → ℕ
      → PaymentRecord
      → Tx PaymentWrite PaymentRecord
  journal_reversal change existing gate now updated = do
    write (post_payment_journal_reversal_entry change.payment_id change.actor_user_id now)
    write (
        append_audit_evidence change.actor_user_id (audit_action change.to)
          (codes "payments/" ++ change.payment_id) existing.status (status_of change.to))
    status ← attempt (λ w. next_status reads w existing.order_id)
    finish_reversal change existing gate updated status

  abbrev pub write_reversal :
      LifecycleChange → PaymentRecord → ReversalGate → ℕ → Tx PaymentWrite PaymentRecord
  write_reversal change existing gate now = do
    write (reversal_write change now)
    λ w. journal_reversal change existing gate now (reads.updated_payment w change.payment_id) w

  abbrev pub reverse_at_shift :
      LifecycleChange → PaymentRecord → ReversalGate → Tx PaymentWrite PaymentRecord
  reverse_at_shift change existing gate = do
    write (bump_shift_revision gate.shift.id)
    λ w. write_reversal change existing gate (reads.clock w) w

  abbrev pub reverse_order : LifecycleChange → PaymentRecord → Text → Tx PaymentWrite PaymentRecord
  reverse_order change existing locked = do
    write (bump_order_revision existing.order_id)
    gate ← attempt (λ w. prepare_reversal reads w change existing.order_id)
    reverse_at_shift change existing gate

  -- The transaction of `lifecycleChange`.
  unfoldable pub reverse_locked : LifecycleChange → PaymentRecord → Tx PaymentWrite PaymentRecord
  reverse_locked change existing = do
    locked ← attempt (λ w. some_or not_found (reads.lock_order w existing.order_id))
    reverse_order change existing locked

  abbrev pub reverse_seen : LifecycleChange → PaymentRecord → Tx PaymentWrite PaymentRecord
  reverse_seen change existing = run (reverse_locked change existing)

  -- `lifecycleChange`; `seen` is the store of the read before the lock.
  unfoldable pub lifecycle_change : PaymentReads → LifecycleChange → Tx PaymentWrite PaymentRecord
  lifecycle_change seen change = do
    existing ← lift (seen_completed seen change.payment_id)
    reverse_seen change existing

  -- `voidPayment` and `refundPayment`; `before` is the store of the authorization.
  unfoldable pub reverse_payment :
      PaymentReads → PaymentReads → LifecycleChange → Text → Tx PaymentWrite PaymentRecord
  reverse_payment before seen change token = do
    lift (authorize_reversal before change token)
    lifecycle_change seen change

  unfoldable pub void_payment_tx :
      PaymentReads → PaymentReads → Text → Text → Text → Text → Tx PaymentWrite PaymentRecord
  void_payment_tx before seen actor token payment_id reason =
      reverse_payment before seen
        (record {
          to = to_voided;
          actor_user_id = actor;
          payment_id = payment_id;
          void_reason = some reason;
        })
        token

  unfoldable pub refund_payment_tx :
      PaymentReads → PaymentReads → Text → Text → Text → Tx PaymentWrite PaymentRecord
  refund_payment_tx before seen actor token payment_id =
      reverse_payment before seen
        (record {
          to = to_refunded;
          actor_user_id = actor;
          payment_id = payment_id;
          void_reason = none;
        })
        token
