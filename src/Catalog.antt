-- ===== src/Catalog.antt =====
-- domain/contracts/catalog-rules.ts and application/engines/catalog/availability.ts.
pub mod Rules
pub mod Availability
pub mod Schedules
