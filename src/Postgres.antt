-- ===== src/Postgres.antt =====
-- Package internal/postgres: the database client, and the backup and restore jobs.
pub mod Client
pub mod Backup
pub mod Restore
