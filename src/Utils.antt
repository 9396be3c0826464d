-- ===== src/Utils.antt =====
-- Package internal/utils.
pub mod Crypto
