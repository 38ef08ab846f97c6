-- ===== src/Db.antt =====
-- The wallet database: its rows, its errors, its tables and the queries that several parts share.
pub mod Schema
pub mod Error
pub mod Tables
pub mod Query
pub mod Rows
