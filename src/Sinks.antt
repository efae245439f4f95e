-- ===== src/Sinks.antt =====
-- src/sinks: the sink of ride events into the lake.
pub mod IcebergSink
