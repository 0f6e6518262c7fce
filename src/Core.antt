-- ===== src/Core.antt =====
-- The trusted core, trusted_core/src: retention locks, trusted time, SHA-256 and the audit chain.
-- A Trusted_Time is a number of at most `time_last`.
pub mod Retention
pub mod Clock
pub mod Sha256
pub mod Audit
mod Tests
