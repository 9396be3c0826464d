-- ===== src/Controllers/Backup.antt =====
-- controllers/postgresbackup_controller.go
pub mod Target
pub mod Status
pub mod Reconcile
