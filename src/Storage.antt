-- ===== src/Storage.antt =====
-- queryapi/internal/logql/ast.go and queryapi/internal/storage: label names, label sets, and the
-- fake and ClickHouse backends.
pub mod Matchers
pub mod Labels
pub mod Clickhouse
pub mod Fake
pub mod Streams
pub mod Prometheus
