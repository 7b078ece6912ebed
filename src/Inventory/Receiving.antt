-- ===== src/Inventory/Receiving.antt =====
-- application/engines/inventory/inventory-engine.ts: the store of the engine, and what a receipt and
-- an adjustment compute before they write.
use alpha_shadow.Prelude.{
  ℕ, ◌^◌, Bool, true, false, not, ◌&&◌, if◌then◌else◌, Option, none, some, int, ℤ, pos, ◌*ℤ◌, leb_ℤ,
  List, Text, text_eq, ◌===◌, codes, Result, ok, err, ◌>>=◌, ◌>>◌, guard, validation, not_found,
  adjustment_reason_unavailable,
}
use alpha_shadow.Prelude.Transactions.{some_or}
use alpha_shadow.Money.Rounding.{divide_round_half_to_even}
use alpha_shadow.Money.Decimal.{non_negative_decimal_text_to_minor, minor_to_decimal_text}
use alpha_shadow.Payments.Records.{StockMovementType, manual_receiving, manual_adjustment}
use alpha_shadow.Payments.Reversal.{stock_quantity_scale}

pub data UnitKind : Type 0 where
  mass volume count : UnitKind

pub record UnitDefinition : Type 0 where
  pub code : Text
  pub kind : UnitKind
  pub to_base_factor : Text

pub record InventoryItemRecord : Type 0 where
  pub id : Text
  pub branch_id : Text
  pub base_unit : Text

pub record AdjustmentReason : Type 0 where
  pub id : Text
  pub is_enabled : Bool
  pub kind_setting_enabled : Bool

pub record ReceiveStockInput : Type 0 where
  pub branch_id : Text
  pub inventory_item_id : Text
  pub quantity_text : Text
  pub purchase_unit : Text
  pub total_cost_minor : Option ℤ

pub record AdjustStockInput : Type 0 where
  pub branch_id : Text
  pub inventory_item_id : Text
  pub quantity_delta_text : Text
  pub adjustment_reason_id : Text
  pub manager_override_id : Option Text

pub record InventoryActor : Type 0 where
  pub user_id : Text
  pub token_sec_v : Text

-- The fields of `InsertStockMovementInput` that these movements set.
pub record ManualMovement : Type 0 where
  pub branch_id : Text
  pub inventory_item_id : Text
  pub movement_type : StockMovementType
  pub quantity_delta : Text
  pub actor_user_id : Text
  pub manager_override_id : Option Text
  pub adjustment_reason_id : Option Text
  pub occurred_at : ℕ

pub record StockMovementRecord : Type 0 where
  pub id : Text
  pub occurred_at : ℕ

pub data InventoryWrite : Type 0 where
  insert_movement : ManualMovement → InventoryWrite
  record_inventory_receipt_cost : Text → Text → ℤ → InventoryWrite
  post_inventory_adjustment : Text → Text → ℕ → InventoryWrite
  mute_low_stock_alerts : Text → Text → InventoryWrite
  unmute_low_stock_alerts : Text → InventoryWrite

-- A movement may be refused by the database; `check` is asked for a user, a key, a token, a branch
-- and whether the permission is sensitive.
pub record InventoryReads : Type 0 where
  pub load_inventory_item : List InventoryWrite → Text → Option InventoryItemRecord
  pub load_conversion_factor : List InventoryWrite → Text → Text → Text → Option Text
  pub load_unit_definition : List InventoryWrite → Text → Option UnitDefinition
  pub load_adjustment_reason : List InventoryWrite → Text → Option AdjustmentReason
  pub branch_belongs_to_tenant : List InventoryWrite → Text → Bool
  pub inserted_movement : List InventoryWrite → ManualMovement → Result StockMovementRecord
  pub clock : List InventoryWrite → ℕ
  pub check : Text → Text → Text → Text → Bool → Result (Unit {0})

abbrev pub receiving_input_scale : ℕ
receiving_input_scale = 8

abbrev pub conversion_factor_scale : ℕ
conversion_factor_scale = 8

abbrev pub unity_factor_text : Text
unity_factor_text = codes "1.00000000"

abbrev pub kind_beq : UnitKind → UnitKind → Bool
kind_beq mass mass = true
kind_beq volume volume = true
kind_beq count count = true
kind_beq _ _ = false

-- The quotient of the base factors of two units, as text.
unfoldable pub derived_factor : UnitDefinition → UnitDefinition → Result Text
derived_factor from to = do
  from_minor ←
      non_negative_decimal_text_to_minor from.to_base_factor (int (pos conversion_factor_scale))
  to_minor ←
      non_negative_decimal_text_to_minor to.to_base_factor (int (pos conversion_factor_scale))
  quotient ← divide_round_half_to_even (from_minor *ℤ pos (10 ^ conversion_factor_scale)) to_minor
  minor_to_decimal_text quotient (int (pos conversion_factor_scale))

-- The first tier: two registered units of one kind.
abbrev pub registered_factor : Option UnitDefinition → Option UnitDefinition → Result Text
registered_factor (some from) (some to) =
    if kind_beq from.kind to.kind then derived_factor from to else err validation
registered_factor none to = err validation
registered_factor (some from) none = err validation

-- The factor of the item's own row, or else that of the registry.
abbrev pub factor_or : Option Text → Result Text → Result Text
factor_or (some factor) registered = ok factor
factor_or none registered = registered

-- (purchase × 10^8) × (factor × 10^8) ÷ 10^12 is base × 10^4.
unfoldable pub convert_quantity : ℤ → Text → Result ℤ
convert_quantity purchase_minor factor_text = do
  factor_minor ← non_negative_decimal_text_to_minor factor_text (int (pos conversion_factor_scale))
  base_minor ← divide_round_half_to_even (purchase_minor *ℤ factor_minor) (pos (10 ^ 12))
  guard (not (leb_ℤ base_minor (pos 0))) validation
  ok base_minor

module _ (reads : InventoryReads) (w : List InventoryWrite) where
  -- The item, which belongs to the branch.
  unfoldable pub item_at : Text → Text → Result InventoryItemRecord
  item_at item_id branch_id = do
    item ← some_or not_found (reads.load_inventory_item w item_id)
    guard (item.branch_id === branch_id) validation
    ok item

  unfoldable pub factor_text : Text → InventoryItemRecord → Result Text
  factor_text unit item =
      if unit === item.base_unit
      then ok unity_factor_text
      else factor_or (reads.load_conversion_factor w item.id unit item.base_unit) (
          registered_factor (reads.load_unit_definition w unit)
            (reads.load_unit_definition w item.base_unit))

  unfoldable pub prepare_receipt : InventoryActor → ReceiveStockInput → ℤ → Result ManualMovement
  prepare_receipt actor input purchase_minor = do
    item ← item_at input.inventory_item_id input.branch_id
    factor ← factor_text input.purchase_unit item
    base_minor ← convert_quantity purchase_minor factor
    quantity ← minor_to_decimal_text base_minor (int (pos stock_quantity_scale))
    ok (record {
      branch_id = input.branch_id;
      inventory_item_id = item.id;
      movement_type = manual_receiving;
      quantity_delta = quantity;
      actor_user_id = actor.user_id;
      manager_override_id = none;
      adjustment_reason_id = none;
      occurred_at = reads.clock w;
    })

  unfoldable pub prepare_adjustment : InventoryActor → AdjustStockInput → ℤ → Result ManualMovement
  prepare_adjustment actor input delta_minor = do
    item ← item_at input.inventory_item_id input.branch_id
    reason ←
        some_or adjustment_reason_unavailable
          (reads.load_adjustment_reason w input.adjustment_reason_id)
    guard (reason.is_enabled && reason.kind_setting_enabled) adjustment_reason_unavailable
    quantity ← minor_to_decimal_text delta_minor (int (pos stock_quantity_scale))
    ok (record {
      branch_id = input.branch_id;
      inventory_item_id = item.id;
      movement_type = manual_adjustment;
      quantity_delta = quantity;
      actor_user_id = actor.user_id;
      manager_override_id = input.manager_override_id;
      adjustment_reason_id = some reason.id;
      occurred_at = reads.clock w;
    })
