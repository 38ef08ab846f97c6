-- ===== src/Logs.antt =====
-- The transaction logs and their operations (full-service/src/db/transaction_log.rs).
pub mod Proposal
pub mod Defs
pub mod Delete
pub mod Lifecycle
pub mod Keeping
pub mod Operations
pub mod Reads
pub mod Values
