-- ===== src/Payments/Lifecycle/Stock.antt =====
-- The stock movements of a refund.
use alpha_shadow.Prelude.{◌≡◌, true, false, int, ℤ, pos, neg_ℤ, List, [], ◌∷◌, Text, text_eq, ok}
use alpha_shadow.Money.Decimal.{decimal_text_to_minor}
use alpha_shadow.Payments.Records.{
  SaleDeductionAggregate, PaymentWrite, insert_stock_movement, post_inventory_restoration,
  PaymentReads,
}
use alpha_shadow.Payments.Reversal.{stock_quantity_scale}
use alpha_shadow.Payments.Lifecycle.{RefundStock, is_in, movement, is_recorded}

-- The quantity of a movement: the negated deduction of a line that never entered the kitchen, and
-- nothing for one that did.
abbrev pub IsMovement : RefundStock → SaleDeductionAggregate → Text → Type 0
IsMovement stock deduction quantity =
    (is_in deduction.order_item_id stock.fired ≡ true
      → decimal_text_to_minor quantity (int (pos stock_quantity_scale)) ≡ ok (pos 0))
    × (is_in deduction.order_item_id stock.fired ≡ false
        → (deducted : ℤ) × (decimal_text_to_minor deduction.total_deducted
              (int (pos stock_quantity_scale))
            ≡ ok deducted)
          × (decimal_text_to_minor quantity (int (pos stock_quantity_scale)) ≡ ok (neg_ℤ deducted)))

module _ (reads : PaymentReads) (stock : RefundStock) where
  -- The writes that a list of deductions adds: none for a recorded one, a movement and its journal
  -- entry for any other.
  pub data Restores
      : List SaleDeductionAggregate → List PaymentWrite → List PaymentWrite → Type 0 where
    finished : {w : List PaymentWrite} → Restores [] w w
    skipped :
        {deduction : SaleDeductionAggregate} {rest : List SaleDeductionAggregate}
        {w w' : List PaymentWrite}
        → is_recorded stock deduction ≡ true
        → Restores rest w w'
        → Restores (deduction ∷ rest) w w'
    moved :
        {deduction : SaleDeductionAggregate} {rest : List SaleDeductionAggregate}
        {w w' : List PaymentWrite} {quantity : Text}
        → is_recorded stock deduction ≡ false
        → IsMovement stock deduction quantity
        → Restores rest
            (post_inventory_restoration
                (reads.inserted_movement
                  (insert_stock_movement (movement stock deduction quantity) ∷ w)
                  (movement stock deduction quantity))
                stock.actor_user_id
                stock.occurred_at
              ∷ insert_stock_movement (movement stock deduction quantity)
              ∷ w)
            w'
        → Restores (deduction ∷ rest) w w'
