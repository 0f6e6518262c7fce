-- ===== src/Vault.antt =====
-- The vault, vault/src/dezhan-vault.adb: its state and the operations on locks, trusted time, seals,
-- buckets, versions and the audit chain, its files and their text, and objects' bytes over the storage as
-- a record. Multipart uploads, scrubbing, garbage collection and listings are left out.
mod Tests
mod FileTests
mod ContentTests
pub mod State
pub mod Persist
pub mod Objects
pub mod Versions
pub mod Admin
pub mod Operations
mod Keeps
pub mod Spec
pub mod Refines
mod Stands
pub mod Time
pub mod Restart
pub mod Files
mod Lines
mod Replay
mod Printed
mod Readable
mod Durable
mod Content
mod Parts
mod Whole
mod Misread
mod Torn
mod Valid
mod Writes
mod Stored
mod Reloaded
mod Lost
mod Recovered
pub mod Marked
pub mod Retained
mod Logged
mod Chain
pub mod Unbroken
