-- ===== src/Payments.antt =====
-- application/engines/payments: discounts, order totals and the payments engine.
pub mod Discount
pub mod Totals
pub mod Records
pub mod Collect
pub mod Replay
pub mod Engine
pub mod Reversal
pub mod Lifecycle
pub mod Coupons
pub mod DiscountGate
pub mod DiscountEngine
