-- ===== src/Sync.antt =====
-- The synchronisation of the accounts with the ledger (full-service/src/service/sync.rs).
pub mod Defs
pub mod Round
pub mod Load
pub mod Transaction
pub mod Keeping
pub mod LogsForward
pub mod Progress
pub mod Runs
pub mod Tombstones
pub mod Spent
pub mod Settled
