-- ===== src/Storage/Clickhouse.antt =====
-- queryapi/internal/storage/clickhouse: the queries, the store and the row iterator.
pub mod Query
pub mod Bindings
pub mod Tenancy
pub mod Shape
pub mod Rows
pub mod Store
