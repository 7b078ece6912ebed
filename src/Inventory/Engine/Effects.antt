-- ===== src/Inventory/Engine/Effects.antt =====
-- What a receipt has checked and written when it succeeds.
use mathlib.Core.Path.{subst}
use alpha_shadow.Prelude.{
  ◌≡◌, ◌≢◌, ◌⊎◌, inl, inr, refl, sym, ap, ◌∙◌, ◌^◌, Bool, true, false, not, arith, if◌then◌else◌,
  Option, none, some, int, ℤ, pos, ◌*ℤ◌, ◌<ℤ◌, ltb_ℤ, leb_ℤ, List, ◌∷◌, Text, text_eq, text_beq_iff,
  text_beq-false, ◌===◌, Result, ok, err, guard, guard-eq-ok, guard-not, >>=-eq-ok, ok-injective,
  err-not-ok, validation, not_found, Bool-cases, Option-cases,
}
use alpha_shadow.Prelude.Transactions.{some_or, some_or-eq-ok, lift-then-ok, run-ok}
use alpha_shadow.Money.Rounding.{
  divide_round_half_to_even, IsHalfEven, divide_round_half_to_even-IsHalfEven,
}
use alpha_shadow.Money.Decimal.{
  non_negative_decimal_text_to_minor, decimal_text_to_minor, minor_to_decimal_text,
}
use alpha_shadow.Money.Decimal.Printing.{printed-read}
use alpha_shadow.Payments.Reversal.{stock_quantity_scale}
use alpha_shadow.Inventory.Quantities.{parse_strict_positive_decimal}
use alpha_shadow.Inventory.Quantities.Exact.{IsQuantity, parse_strict_decimal-IsQuantity}
use alpha_shadow.Inventory.Receiving.{
  InventoryItemRecord, UnitDefinition, ReceiveStockInput, InventoryActor, ManualMovement,
  StockMovementRecord, InventoryWrite, insert_movement, record_inventory_receipt_cost,
  InventoryReads, receiving_input_scale, conversion_factor_scale, unity_factor_text, kind_beq,
  derived_factor, registered_factor, factor_or, convert_quantity, item_at, factor_text,
  prepare_receipt,
}
use alpha_shadow.Inventory.Engine.{
  receive_permission_key, write_cost, write_receipt, insert_receipt, receive_tx, receive_parsed,
  receive_checked, receive_stock,
}

-- The conversion of a purchase unit to the base unit of an item: the same unit, the item's own
-- factor, or that of two registered units of one kind, in this order.
abbrev pub IsFactor :
    InventoryReads → List InventoryWrite → Text → InventoryItemRecord → Text → Type 0
IsFactor reads w unit item factor =
    ((unit ≡ item.base_unit) × (factor ≡ unity_factor_text))
    ⊎ ((unit ≢ item.base_unit)
        × ((reads.load_conversion_factor w item.id unit item.base_unit ≡ some factor)
            ⊎ ((reads.load_conversion_factor w item.id unit item.base_unit ≡ none)
                × ((from : UnitDefinition) × (to : UnitDefinition) × (reads.load_unit_definition w
                        unit
                      ≡ some from)
                    × (reads.load_unit_definition w item.base_unit ≡ some to)
                    × (kind_beq from.kind to.kind ≡ true)
                    × (derived_factor from to ≡ ok factor)))))

registered_factor-eq-ok :
    (f t : Option UnitDefinition) {factor : Text}
    → registered_factor f t ≡ ok factor
    → (from : UnitDefinition) × (to : UnitDefinition) × (f ≡ some from)
      × (t ≡ some to)
      × (kind_beq from.kind to.kind ≡ true)
      × (derived_factor from to ≡ ok factor)
registered_factor-eq-ok none t h = absurd (err-not-ok h)
registered_factor-eq-ok (some from) none h = absurd (err-not-ok h)
registered_factor-eq-ok (some from) (some to) h =
    let chosen : Bool → Result Text = λ b. if b then derived_factor from to else err validation in
    elim (Bool-cases (kind_beq from.kind to.kind)) [
      | inl same ↦ (from, to, refl, refl, same, ap chosen (sym same) ∙ h)
      | inr other ↦ absurd (err-not-ok (ap chosen (sym other) ∙ h))
    ]

module _ (reads : InventoryReads) (w : List InventoryWrite) where
  factor_text-IsFactor :
      (unit : Text) (item : InventoryItemRecord) {factor : Text}
      → factor_text reads w unit item ≡ ok factor
      → IsFactor reads w unit item factor
  unfolding factor_text
  factor_text-IsFactor unit item h =
      let own = reads.load_conversion_factor w item.id unit item.base_unit in
      let registered =
        registered_factor (reads.load_unit_definition w unit)
          (reads.load_unit_definition w item.base_unit) in
      let chosen : Bool → Result Text =
        λ b. if b then ok unity_factor_text else factor_or own registered in
      elim (Bool-cases (unit === item.base_unit)) [
        | inl same ↦ inl (
          (text_beq_iff unit item.base_unit).0 same,
          sym (ok-injective (ap chosen (sym same) ∙ h)),
        )
        | inr other ↦
            let rest = ap chosen (sym other) ∙ h in
            inr (
              text_beq-false unit item.base_unit other,
              elim (Option-cases own) [
                | inl missing ↦ inr (
                  missing,
                  registered_factor-eq-ok _ _
                      (ap (λ o. factor_or o registered) (sym missing) ∙ rest),
                )
                | inr (factor, given) ↦ inl (
                    given
                    ∙ ap some (ok-injective (ap (λ o. factor_or o registered) (sym given) ∙ rest)))
              ],
            )
      ]

  item_at-eq-ok :
      (item_id branch_id : Text) {item : InventoryItemRecord}
      → item_at reads w item_id branch_id ≡ ok item
      → (reads.load_inventory_item w item_id ≡ some item) × (item.branch_id ≡ branch_id)
  unfolding item_at
  item_at-eq-ok item_id branch_id h =
      let (item, loaded, h1) =
        >>=-eq-ok (some_or not_found (reads.load_inventory_item w item_id)) _ h in
      let (_, same, h2) = >>=-eq-ok (guard (item.branch_id === branch_id) validation) _ h1 in
      rw (← ok-injective h2) (
        some_or-eq-ok not_found _ loaded,
        (text_beq_iff item.branch_id branch_id).0 (guard-eq-ok _ validation same),
      )

positive_of : (n : ℤ) → leb_ℤ n (pos 0) ≡ false → pos 0 <ℤ n
positive_of n h = ground arith

not_zero : pos (10 ^ 12) ≢ pos 0
not_zero h = grind arith

-- A quantity in base units: the product rounded to the nearest ten-thousandth, and positive.
pub record IsConverted (purchase : ℤ) (factor : Text) (base : ℤ) : Type 0 where
  pub factor_minor : ℤ
  pub is_factor :
      non_negative_decimal_text_to_minor factor (int (pos conversion_factor_scale))
      ≡ ok factor_minor
  pub nearest : IsHalfEven (purchase *ℤ factor_minor) (pos (10 ^ 12)) base
  pub positive : pos 0 <ℤ base

convert_quantity-IsConverted :
    (purchase : ℤ) (factor : Text) {base : ℤ}
    → convert_quantity purchase factor ≡ ok base
    → IsConverted purchase factor base
unfolding convert_quantity
convert_quantity-IsConverted purchase factor h =
    let (factor_minor, is_factor, h1) =
      >>=-eq-ok (non_negative_decimal_text_to_minor factor (int (pos conversion_factor_scale))) _
        h in
    let (base, divided, h2) =
      >>=-eq-ok (divide_round_half_to_even (purchase *ℤ factor_minor) (pos (10 ^ 12))) _ h1 in
    let (_, positive, h3) = >>=-eq-ok (guard (not (leb_ℤ base (pos 0))) validation) _ h2 in
    let (q, is, nearest) =
      divide_round_half_to_even-IsHalfEven (purchase *ℤ factor_minor) (pos (10 ^ 12)) not_zero in
    rw (← ok-injective h3) (record {
      factor_minor = factor_minor;
      is_factor = is_factor;
      nearest =
          subst (λ b. IsHalfEven (purchase *ℤ factor_minor) (pos (10 ^ 12)) b)
            (ok-injective (sym is ∙ divided)) nearest;
      positive = positive_of base (guard-not _ validation positive);
    })

-- The writes of the cost of a receipt, which is positive.
abbrev pub IsCost : Option ℤ → Text → Text → List InventoryWrite → List InventoryWrite → Type 0
IsCost none movement item w w' = w' ≡ w
IsCost (some cost) movement item w w' =
    (pos 0 <ℤ cost) × (w' ≡ record_inventory_receipt_cost movement item cost ∷ w)

below : (a b : ℤ) → ltb_ℤ a b ≡ true → a <ℤ b
below a b h = ground arith

write_cost-IsCost :
    (reads : InventoryReads) (cost : Option ℤ) (movement : ManualMovement)
    (inserted : StockMovementRecord) (w : List InventoryWrite) {w' : List InventoryWrite}
    {r : StockMovementRecord}
    → write_cost reads cost movement inserted w ≡ (ok r, w')
    → IsCost cost inserted.id movement.inventory_item_id w w'
write_cost-IsCost reads none movement inserted w h = sym (ap (λ p. p.1) h)
write_cost-IsCost reads (some cost) movement inserted w h =
    let (_, positive, h1) = lift-then-ok (guard (ltb_ℤ (pos 0) cost) validation) _ h in
    (below (pos 0) cost (guard-eq-ok _ validation positive), sym (ap (λ p. p.1) h1))

-- A receipt from the writes `w`.
pub record Received (reads : InventoryReads) (actor : InventoryActor) (input : ReceiveStockInput)
    (w w' : List InventoryWrite) : Type 0 where
  pub item : InventoryItemRecord
  pub factor : Text
  pub purchase : ℤ
  pub base : ℤ
  pub movement : ManualMovement
  pub inserted : StockMovementRecord
  pub authorized :
      reads.check actor.user_id receive_permission_key actor.token_sec_v input.branch_id false
      ≡ ok tt
  pub is_purchase : IsQuantity input.quantity_text receiving_input_scale false purchase
  pub loaded : reads.load_inventory_item w input.inventory_item_id ≡ some item
  pub at_branch : item.branch_id ≡ input.branch_id
  pub is_factor : IsFactor reads w input.purchase_unit item factor
  pub converted : IsConverted purchase factor base
  pub is_item : movement.inventory_item_id ≡ item.id
  pub is_quantity :
      decimal_text_to_minor movement.quantity_delta (int (pos stock_quantity_scale)) ≡ ok base
  pub is_inserted : reads.inserted_movement w movement ≡ ok inserted
  pub written :
      IsCost input.total_cost_minor inserted.id movement.inventory_item_id
        (insert_movement movement ∷ w)
        w'

-- A receipt that succeeds is authorized at its branch; its quantity is the exact positive text, its
-- item belongs to the branch, and its unit is converted by the same unit, the item's own factor, or
-- that of two registered units of one kind, in this order. The movement is worth the product rounded
-- to the nearest ten-thousandth, half to even, and positive. It is written, with a positive cost
-- where one is given, and no more.
pub receive_stock-eq-ok :
    (reads : InventoryReads) (actor : InventoryActor) (input : ReceiveStockInput)
    (w : List InventoryWrite) {w' : List InventoryWrite} {r : StockMovementRecord}
    → receive_stock reads actor input w ≡ (ok r, w')
    → Received reads actor input w w'
unfolding receive_stock receive_tx prepare_receipt parse_strict_positive_decimal
receive_stock-eq-ok reads actor input w h =
    let (u, checked, h1) =
      lift-then-ok
        (reads.check actor.user_id receive_permission_key actor.token_sec_v input.branch_id false)
        (receive_checked reads actor input) h in
    let (purchase, parsed, h2) =
      lift-then-ok (parse_strict_positive_decimal input.quantity_text receiving_input_scale)
        (receive_parsed reads actor input) h1 in
    let h3 = run-ok (receive_tx reads actor input purchase w) w h2 in
    let (movement, prepared, h4) =
      lift-then-ok (prepare_receipt reads w actor input purchase) (insert_receipt reads input) h3 in
    let (inserted, is_inserted, h5) =
      lift-then-ok (reads.inserted_movement w movement) (write_receipt reads input movement) h4 in
    let (item, is_item, p1) =
      >>=-eq-ok (item_at reads w input.inventory_item_id input.branch_id) _ prepared in
    let (factor, is_factor, p2) = >>=-eq-ok (factor_text reads w input.purchase_unit item) _ p1 in
    let (base, converted, p3) = >>=-eq-ok (convert_quantity purchase factor) _ p2 in
    let (quantity, printed, p4) =
      >>=-eq-ok (minor_to_decimal_text base (int (pos stock_quantity_scale))) _ p3 in
    let (loaded, at_branch) =
      item_at-eq-ok reads w input.inventory_item_id input.branch_id is_item in
    let same = ok-injective p4 in
    record {
      item = item;
      factor = factor;
      purchase = purchase;
      base = base;
      movement = movement;
      inserted = inserted;
      authorized = checked;
      is_purchase =
          parse_strict_decimal-IsQuantity input.quantity_text receiving_input_scale false parsed;
      loaded = loaded;
      at_branch = at_branch;
      is_factor = factor_text-IsFactor reads w input.purchase_unit item is_factor;
      converted = convert_quantity-IsConverted purchase factor converted;
      is_item = sym (ap (λ m. m.inventory_item_id) same);
      is_quantity =
          ap (λ m. decimal_text_to_minor m.quantity_delta (int (pos stock_quantity_scale)))
            (sym same)
          ∙ printed-read base stock_quantity_scale (omega arith) printed;
      is_inserted = is_inserted;
      written =
          write_cost-IsCost reads input.total_cost_minor movement inserted
            (insert_movement movement ∷ w) h5;
    }
