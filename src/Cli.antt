-- ===== src/Cli.antt =====
-- The command-line client's library of logs.
pub mod Entries
pub mod Follow
