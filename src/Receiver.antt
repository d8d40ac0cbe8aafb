-- ===== src/Receiver.antt =====
-- receiver/natsreceiver: messages from NATS, unmarshalled and forwarded into a collector pipeline.
pub mod Config
pub mod Deliver
pub mod Lifecycle
