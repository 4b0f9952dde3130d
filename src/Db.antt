-- ===== src/Db.antt =====
-- internal/db: the tables behind the store, as far as the services depend on what their statements
-- do.
pub mod AlertRules
pub mod Deliveries
