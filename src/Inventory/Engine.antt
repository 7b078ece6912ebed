-- ===== src/Inventory/Engine.antt =====
-- application/engines/inventory/inventory-engine.ts: `receiveStock`, `adjustStock`, and the muting of
-- alerts.
pub mod Effects
use alpha_shadow.Prelude.{
  Bool, true, false, Option, none, some, ℤ, pos, ltb_ℤ, List, [], ◌∷◌, Text, codes, Error, Result,
  ok, err, guard, validation, not_found,
}
use alpha_shadow.Prelude.Transactions.{Tx, and_then, ◌>>=◌, ◌>>◌, lift, attempt, write, run}
use alpha_shadow.Payments.Reversal.{stock_quantity_scale}
use alpha_shadow.Inventory.Quantities.{parse_strict_positive_decimal, parse_strict_non_zero_decimal}
use alpha_shadow.Inventory.Receiving.{
  ReceiveStockInput, AdjustStockInput, InventoryActor, ManualMovement, StockMovementRecord,
  InventoryWrite, insert_movement, record_inventory_receipt_cost, post_inventory_adjustment,
  mute_low_stock_alerts, unmute_low_stock_alerts, InventoryReads, receiving_input_scale,
  prepare_receipt, prepare_adjustment,
}

abbrev pub receive_permission_key : Text
receive_permission_key = codes "inventory:receive"

abbrev pub adjust_permission_key : Text
adjust_permission_key = codes "inventory:adjust"

module _ (reads : InventoryReads) where
  -- A cost that is given is positive.
  abbrev pub write_cost :
      Option ℤ → ManualMovement → StockMovementRecord → Tx InventoryWrite StockMovementRecord
  write_cost none movement inserted = lift (ok inserted)
  write_cost (some cost) movement inserted = do
    lift (guard (ltb_ℤ (pos 0) cost) validation)
    write (record_inventory_receipt_cost inserted.id movement.inventory_item_id cost)
    lift (ok inserted)

  abbrev pub write_receipt :
      ReceiveStockInput
      → ManualMovement
      → StockMovementRecord
      → Tx InventoryWrite StockMovementRecord
  write_receipt input movement inserted = do
    write (insert_movement movement)
    write_cost input.total_cost_minor movement inserted

  abbrev pub insert_receipt :
      ReceiveStockInput → ManualMovement → Tx InventoryWrite StockMovementRecord
  insert_receipt input movement = do
    inserted ← attempt (λ w. reads.inserted_movement w movement)
    write_receipt input movement inserted

  unfoldable pub receive_tx :
      InventoryActor → ReceiveStockInput → ℤ → Tx InventoryWrite StockMovementRecord
  receive_tx actor input purchase_minor = do
    movement ← attempt (λ w. prepare_receipt reads w actor input purchase_minor)
    insert_receipt input movement

  abbrev pub receive_parsed :
      InventoryActor → ReceiveStockInput → ℤ → Tx InventoryWrite StockMovementRecord
  receive_parsed actor input purchase_minor = run (receive_tx actor input purchase_minor)

  abbrev pub receive_checked :
      InventoryActor → ReceiveStockInput → Unit {0} → Tx InventoryWrite StockMovementRecord
  receive_checked actor input u = do
    purchase_minor ← lift (parse_strict_positive_decimal input.quantity_text receiving_input_scale)
    receive_parsed actor input purchase_minor

  -- `receiveStock`.
  unfoldable pub receive_stock :
      InventoryActor → ReceiveStockInput → Tx InventoryWrite StockMovementRecord
  receive_stock actor input = do
    u ←
        lift
          (reads.check actor.user_id receive_permission_key actor.token_sec_v input.branch_id false)
    receive_checked actor input u

  abbrev pub write_adjustment :
      InventoryActor → ManualMovement → StockMovementRecord → Tx InventoryWrite StockMovementRecord
  write_adjustment actor movement inserted = do
    write (insert_movement movement)
    write (post_inventory_adjustment inserted.id actor.user_id inserted.occurred_at)
    lift (ok inserted)

  abbrev pub insert_adjustment :
      InventoryActor → ManualMovement → Tx InventoryWrite StockMovementRecord
  insert_adjustment actor movement = do
    inserted ← attempt (λ w. reads.inserted_movement w movement)
    write_adjustment actor movement inserted

  unfoldable pub adjust_tx :
      InventoryActor → AdjustStockInput → ℤ → Tx InventoryWrite StockMovementRecord
  adjust_tx actor input delta_minor = do
    movement ← attempt (λ w. prepare_adjustment reads w actor input delta_minor)
    insert_adjustment actor movement

  abbrev pub adjust_parsed :
      InventoryActor → AdjustStockInput → ℤ → Tx InventoryWrite StockMovementRecord
  adjust_parsed actor input delta_minor = run (adjust_tx actor input delta_minor)

  abbrev pub adjust_checked :
      InventoryActor → AdjustStockInput → Unit {0} → Tx InventoryWrite StockMovementRecord
  adjust_checked actor input u = do
    delta_minor ←
        lift (parse_strict_non_zero_decimal input.quantity_delta_text stock_quantity_scale)
    adjust_parsed actor input delta_minor

  -- `adjustStock`.
  unfoldable pub adjust_stock :
      InventoryActor → AdjustStockInput → Tx InventoryWrite StockMovementRecord
  adjust_stock actor input = do
    u ←
        lift
          (reads.check actor.user_id adjust_permission_key actor.token_sec_v input.branch_id true)
    adjust_checked actor input u

  abbrev pub alerts_of : InventoryActor → Text → InventoryWrite → Tx InventoryWrite (Unit {0})
  alerts_of actor branch change = do
    lift (reads.check actor.user_id adjust_permission_key actor.token_sec_v branch true)
    run (do attempt (λ w. guard (reads.branch_belongs_to_tenant w branch) not_found); write change)

  unfoldable pub mute_alerts : InventoryActor → Text → Tx InventoryWrite (Unit {0})
  mute_alerts actor branch = alerts_of actor branch (mute_low_stock_alerts branch actor.user_id)

  unfoldable pub unmute_alerts : InventoryActor → Text → Tx InventoryWrite (Unit {0})
  unmute_alerts actor branch = alerts_of actor branch (unmute_low_stock_alerts branch)
