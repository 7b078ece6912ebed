-- ===== src/Inventory.antt =====
-- application/engines/inventory/inventory-engine.ts.
pub mod Quantities
pub mod Receiving
pub mod Engine
