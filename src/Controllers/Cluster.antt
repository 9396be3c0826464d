-- ===== src/Controllers/Cluster.antt =====
-- controllers/postgrescluster_controller.go
pub mod Defaults
pub mod Config
pub mod Credentials
pub mod Services
pub mod Sets
pub mod Status
pub mod Deletion
pub mod Reconcile
