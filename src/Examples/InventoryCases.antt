-- ===== src/Examples/InventoryCases.antt =====
-- A receipt of flour, bought in kilograms and kept in grams.
use alpha_shadow.Prelude.{
  ◌≡◌, refl, true, Option, none, some, pos, negsuc, ◌+ℤ◌, ◌-ℤ◌, ◌*ℤ◌, quot_ℤ, rem_ℤ, List, [], ◌∷◌,
  Text, codes, text_beq, ok,
}
use alpha_shadow.Money.Rounding.{round_quotient, divide_round_half_to_even}
use alpha_shadow.Money.Decimal.{
  split_point, is_integer_part, is_fraction_part, must_match, digits_value, assert_digits,
  non_negative_decimal_text_to_minor, last_digits, to_digits, minor_to_decimal_text, pad_end,
}
use alpha_shadow.Payments.Records.{manual_receiving}
use alpha_shadow.Inventory.Quantities.{parse_strict_decimal, parse_strict_positive_decimal}
use alpha_shadow.Inventory.Receiving.{
  mass, UnitDefinition, ReceiveStockInput, InventoryActor, InventoryWrite, insert_movement,
  record_inventory_receipt_cost, InventoryReads, derived_factor, convert_quantity, item_at,
  factor_text, prepare_receipt,
}
use alpha_shadow.Inventory.Engine.{receive_tx, receive_stock}
use alpha_shadow.Inventory.Engine.Effects.{Received, receive_stock-eq-ok}

minus_two_and_a_half : parse_strict_decimal (codes "-2.5") 4 true ≡ ok (negsuc 24_999)
unfolding parse_strict_decimal must_match split_point is_integer_part is_fraction_part digits_value
    pad_end
minus_two_and_a_half = refl

abbrev metric_units : Text → Option UnitDefinition
metric_units (k ∷ g ∷ []) =
    some (record { code = codes "kg"; kind = mass; to_base_factor = codes "1000.00000000" })
metric_units _ = some (record { code = codes "g"; kind = mass; to_base_factor = codes "1" })

abbrev pantry : InventoryReads
pantry = record {
  load_inventory_item =
      λ _ id. some (record { id = id; branch_id = codes "b1"; base_unit = codes "g" });
  load_conversion_factor = λ _ _ _ _. none;
  load_unit_definition = λ _ unit. metric_units unit;
  load_adjustment_reason = λ _ _. none;
  branch_belongs_to_tenant = λ _ _. true;
  inserted_movement = λ _ _. ok (record { id = codes "v1"; occurred_at = 7 });
  clock = λ _. 7;
  check = λ _ _ _ _ _. ok tt;
}

abbrev cook : InventoryActor
cook = record { user_id = codes "u1"; token_sec_v = codes "t1" }

abbrev flour_delivery : ReceiveStockInput
flour_delivery = record {
  branch_id = codes "b1";
  inventory_item_id = codes "f1";
  quantity_text = codes "1.5";
  purchase_unit = codes "kg";
  total_cost_minor = some (pos 300);
}

abbrev flour_writes : List InventoryWrite
flour_writes =
    record_inventory_receipt_cost (codes "v1") (codes "f1") (pos 300)
    ∷ insert_movement (record {
      branch_id = codes "b1";
      inventory_item_id = codes "f1";
      movement_type = manual_receiving;
      quantity_delta = codes "1500.0000";
      actor_user_id = codes "u1";
      manager_override_id = none;
      adjustment_reason_id = none;
      occurred_at = 7;
    })
    ∷ []

flour-received :
    receive_stock pantry cook flour_delivery []
    ≡ (ok (record { id = codes "v1"; occurred_at = 7 }), flour_writes)
unfolding receive_stock receive_tx prepare_receipt item_at factor_text derived_factor
    convert_quantity parse_strict_positive_decimal parse_strict_decimal pad_end
    non_negative_decimal_text_to_minor assert_digits must_match split_point is_integer_part
    is_fraction_part digits_value divide_round_half_to_even round_quotient ◌*ℤ◌ ◌+ℤ◌ ◌-ℤ◌ quot_ℤ
    rem_ℤ minor_to_decimal_text last_digits to_digits text_beq
flour-received = refl

receive_stock-eq-ok_example : Received pantry cook flour_delivery [] flour_writes
receive_stock-eq-ok_example = receive_stock-eq-ok pantry cook flour_delivery [] flour-received
