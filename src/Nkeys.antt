-- ===== src/Nkeys.antt =====
-- nkey-generator/main.go: one run provisions an NKey for each enabled cluster and rewrites the list
-- of users that the hub authorizes.
pub mod Users
pub mod Api
pub mod Generator
pub mod Subjects
pub mod Seeds
pub mod Endings
pub mod Dropping
pub mod Backing
