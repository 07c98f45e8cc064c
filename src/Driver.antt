-- ===== src/Driver.antt =====
-- The driver package, clickhouse_backend/driver.
pub mod Pool
pub mod Escape
pub mod Client
pub mod Connection
