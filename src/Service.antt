-- ===== src/Service.antt =====
-- internal/service: CI reports and the alerts that follow from them.
pub mod Report
pub mod Alerts
pub mod Selection
pub mod Baselines
pub mod Delivery
