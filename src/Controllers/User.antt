-- ===== src/Controllers/User.antt =====
-- controllers/postgresuser_controller.go
pub mod Targets
pub mod Password
pub mod Instances
pub mod Status
pub mod Reconcile
