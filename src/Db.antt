-- ===== src/Db.antt =====
-- The database: tables as lists of rows, the schema, transactions, and the writes of single rows.
pub mod Table
pub mod Schema
pub mod Tx
pub mod Writes
pub mod Query
pub mod Order
pub mod Members
