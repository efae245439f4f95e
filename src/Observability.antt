-- ===== src/Observability.antt =====
-- src/observability: how far the consumers lag.
pub mod LagExporter
