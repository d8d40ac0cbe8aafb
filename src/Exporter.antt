-- ===== src/Exporter.antt =====
-- exporter/natsexporter: payloads of the collector pipeline, marshalled and published to NATS.
pub mod Config
pub mod Publish
pub mod Routing
