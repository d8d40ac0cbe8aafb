-- ===== src/Handlers.antt =====
-- queryapi: the handlers of the metric endpoints.
pub mod Prom
pub mod Routes
pub mod Logs
