-- ===== src/Tests.antt =====
-- The theorems at the objects of the fixtures.
pub mod Clusters
pub mod Users
pub mod Backups
pub mod Restores
pub mod Manager
