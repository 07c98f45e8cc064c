-- ===== src/Models.antt =====
-- The models package, clickhouse_backend/models.
pub mod Settings
pub mod Engines
pub mod Indexes
pub mod Query
pub mod Fragments
pub mod Compiler
pub mod Fields
