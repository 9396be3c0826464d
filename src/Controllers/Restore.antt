-- ===== src/Controllers/Restore.antt =====
-- controllers/postgresrestore_controller.go
pub mod Targets
pub mod Jobs
pub mod Status
pub mod Instances
pub mod Reconcile
