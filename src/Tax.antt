-- ===== src/Tax.antt =====
-- The tax calculation: shared/tax-math.ts, domain/contracts/tax-rules.ts and the cascade of
-- application/engines/tax/cascading.ts.
pub mod Math
pub mod Rules
pub mod Cascading
pub mod Dates
pub mod Liability
pub mod Resolution
pub mod Snapshots
pub mod Invoices
