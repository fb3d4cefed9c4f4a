-- ===== src/Pgsql.antt =====
-- src/plugins/storage: the PostgreSQL storage plugin and its connection pool.
pub mod Pool
pub mod Statements
pub mod Store
pub mod Instance
