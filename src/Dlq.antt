-- ===== src/Dlq.antt =====
-- src/dlq: the dead-letter queue.
pub mod Base64
pub mod Envelope
