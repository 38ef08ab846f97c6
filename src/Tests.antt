-- ===== src/Tests.antt =====
-- A small wallet, on which the code runs, and an example of each theorem.
pub mod Wallet
pub mod Examples
pub mod SyncExamples
pub mod StoreExamples
pub mod BuilderExamples
pub mod AccountExamples
pub mod BuildExamples
pub mod ServiceExamples
pub mod WrapperExamples
pub mod GiftExamples
pub mod ReceiptExamples
