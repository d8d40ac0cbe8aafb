-- ===== src/Operator.antt =====
-- operator: the validation of an ExportPolicy, and the controller that exports it.
pub mod Policies
pub mod Sources
pub mod Validity
pub mod Webhook
pub mod Controller
