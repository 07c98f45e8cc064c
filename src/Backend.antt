-- ===== src/Backend.antt =====
-- The database backend, clickhouse_backend/backend.
pub mod Wrapper
pub mod Operations
pub mod Lookups
pub mod Schema
pub mod Introspection
