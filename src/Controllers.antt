-- ===== src/Controllers.antt =====
-- Package controllers: one reconciler for each resource.
pub mod Cluster
pub mod User
pub mod Backup
pub mod Restore
pub mod Setup
