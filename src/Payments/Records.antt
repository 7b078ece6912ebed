-- ===== src/Payments/Records.antt =====
-- domain/contracts/payments.ts: the records that the payments engine reads and writes, and its
-- store. The tenant is fixed. Ids that the engine draws at random are left out of what it writes.
use alpha_shadow.Prelude.{ℕ, Bool, Option, List, Text, Result, ℤ}
use alpha_shadow.Shifts.Checks.{ShiftRecord}
use alpha_shadow.Payments.Totals.{OrderPaymentStatus, PaymentStatus, OrderFinancialSnapshot}

pub data PaymentMethodType : Type 0 where
  cash card wallet foreign_currency_cash other : PaymentMethodType

pub record PaymentMethodRecord : Type 0 where
  pub id : Text
  pub branch_id : Option Text
  pub kind : PaymentMethodType
  pub currency_code : Option Text
  pub fixed_exchange_rate : Option Text
  pub clearing_account_system_purpose : Text
  pub is_active : Bool

pub record PaymentRecord : Type 0 where
  pub id : Text
  pub order_id : Text
  pub payment_method_id : Text
  pub amount : Text
  pub amount_in_base_currency : Text
  pub exchange_rate_snapshot : Option Text
  pub change_given_amount : Option Text
  pub status : PaymentStatus
  pub shift_id : Text
  pub created_by : Text
  pub idempotency_key : Option Text
  pub created_at : ℕ

pub record InsertPaymentInput : Type 0 where
  pub order_id : Text
  pub payment_method_id : Text
  pub amount : Text
  pub amount_in_base_currency : Text
  pub exchange_rate_snapshot : Option Text
  pub change_given_amount : Option Text
  pub shift_id : Text
  pub created_by : Text
  pub idempotency_key : Option Text

pub record PostPaymentJournalEntryInput : Type 0 where
  pub payment_id : Text
  pub branch_id : Text
  pub currency_code : Text
  pub amount_minor : ℤ
  pub debit_system_purpose : Text
  pub posted_by_user_id : Text
  pub occurred_at : ℕ

pub record SaleDeductionAggregate : Type 0 where
  pub order_item_id : Text
  pub inventory_item_id : Text
  pub total_deducted : Text

pub data StockMovementType : Type 0 where
  sale_deduction void_restoration waste_void waste_refund manual_receiving manual_adjustment :
      StockMovementType

-- The fields that the refunds and voids of orders set.
pub record InsertStockMovementInput : Type 0 where
  pub branch_id : Text
  pub inventory_item_id : Text
  pub movement_type : StockMovementType
  pub quantity_delta : Text
  pub order_id : Text
  pub order_item_id : Text
  pub actor_user_id : Text
  pub occurred_at : ℕ

pub data PaymentWrite : Type 0 where
  bump_order_revision : Text → PaymentWrite
  bump_shift_revision : Text → PaymentWrite
  insert_payment : InsertPaymentInput → PaymentWrite
  post_payment_journal_entry : PostPaymentJournalEntryInput → PaymentWrite
  post_order_cogs : Text → Text → ℕ → PaymentWrite
  set_order_payment_status : Text → OrderPaymentStatus → PaymentWrite
  void_payment : Text → Text → ℕ → Text → PaymentWrite
  refund_payment : Text → PaymentWrite
  post_payment_journal_reversal_entry : Text → Text → ℕ → PaymentWrite
  append_audit_evidence : Text → Text → Text → PaymentStatus → PaymentStatus → PaymentWrite
  insert_stock_movement : InsertStockMovementInput → PaymentWrite
  post_inventory_restoration : Text → Text → ℕ → PaymentWrite

-- What the engine reads of the store after the writes so far, the rows that its writes give, the
-- clock, and the authorization engine, asked for a user, a key, a token and a branch. An insertion
-- may be refused by a constraint; the other writes are taken to succeed.
pub record PaymentReads : Type 0 where
  pub lock_order : List PaymentWrite → Text → Option Text
  pub load_order_financial_snapshot : List PaymentWrite → Text → Option OrderFinancialSnapshot
  pub load_payment_method : List PaymentWrite → Text → Option PaymentMethodRecord
  pub find_open_shift_for_cashier : List PaymentWrite → Text → Text → Option ShiftRecord
  pub lock_shift : List PaymentWrite → Text → Option ShiftRecord
  pub load_payment : List PaymentWrite → Text → Option PaymentRecord
  pub load_payment_by_idempotency_key : List PaymentWrite → Text → Option PaymentRecord
  pub has_active_order_items : List PaymentWrite → Text → Bool
  pub inserted_payment : List PaymentWrite → InsertPaymentInput → Result PaymentRecord
  pub updated_payment : List PaymentWrite → Text → PaymentRecord
  pub load_non_voided_order_item_ids : List PaymentWrite → Text → List Text
  pub load_sale_deductions_for_order_items :
      List PaymentWrite → List Text → List SaleDeductionAggregate
  pub load_items_with_kitchen_ticket_fired : List PaymentWrite → List Text → List Text
  pub load_waste_refund_keys : List PaymentWrite → Text → List (Text × Text)
  pub inserted_movement : List PaymentWrite → InsertStockMovementInput → Text
  pub clock : List PaymentWrite → ℕ
  pub check : Text → Text → Option Text → Text → Result (Unit {0})
