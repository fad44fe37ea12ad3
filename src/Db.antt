-- ===== src/Db.antt =====
-- The Postgres database behind internal/repository: its tables, and statements that may fail.
pub mod Table
pub mod Schema
pub mod Action
pub mod Writes
pub mod Reads
