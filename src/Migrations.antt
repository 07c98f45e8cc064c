-- ===== src/Migrations.antt =====
-- The migrations of a cluster, clickhouse_backend/patch/migrations.py.
pub mod Connection
pub mod Recorder
pub mod Running
