-- ===== src/Txos.antt =====
-- The txos table and its operations (full-service/src/db/txo.rs).
pub mod List
pub mod Status
pub mod Info
pub mod Spendable
pub mod Memo
pub mod Write
pub mod Overlap
pub mod Frame
pub mod Receive
pub mod Others
pub mod Remove
