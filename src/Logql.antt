-- ===== src/Logql.antt =====
-- queryapi/internal/logql/parser.go, and cli/logql, which builds the queries that it parses.
pub mod Spaces
pub mod Scan
pub mod Parser
pub mod Selector
pub mod Quoting
pub mod RoundTrip
