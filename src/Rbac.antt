-- ===== src/Rbac.antt =====
-- application/engines/rbac: the permission cache and the authorization engine.
pub mod L1Cache
pub mod Authorization
