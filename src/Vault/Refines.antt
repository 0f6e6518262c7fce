-- ===== src/Vault/Refines.antt =====
-- The vault, vault/src/dezhan-vault.adb, call for call against its abstract counterpart.
mod Objects
mod Versions
mod Admin
pub mod Runs
