-- ===== src/Service.antt =====
-- The services over the wallet database (full-service/src/service).
pub mod Parse
pub mod Sign
pub mod Transaction
pub mod Submit
pub mod Safety
pub mod Atomic
pub mod Guards
pub mod Accounts
pub mod Receipt
pub mod Receipts
pub mod Txos
pub mod Split
