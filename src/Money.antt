-- ===== src/Money.antt =====
-- shared/money.ts: money as BigInt minor units.
pub mod Currency
pub mod Rounding
pub mod Amount
pub mod Allocation
pub mod Decimal
pub mod Exchange
pub mod Storage
