-- ===== src/Orders.antt =====
-- application/engines/orders.
pub mod Transition
