-- ===== src/Api.antt =====
-- The types of package api/v1, and the part of `metav1` that they use.
pub mod Meta
pub mod Selectors
pub mod Cluster
pub mod User
pub mod Backup
pub mod Restore
