-- ===== src/Store.antt =====
-- The database behind the services: its rows, its tables and the transactions on it.
pub mod Rows
pub mod Tables
pub mod Tx
