-- ===== src/Examples.antt =====
-- Tests of the definitions on small inputs, and the theorems at inputs that meet their hypotheses.
pub mod Pipeline
pub mod Nats
pub mod Access
pub mod Clickhouse
pub mod Fake
pub mod Nkeys
pub mod Operator
pub mod Controller
pub mod Handlers
pub mod Logql
pub mod Cli
pub mod Streams
