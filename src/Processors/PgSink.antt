-- ===== src/Processors/PgSink.antt =====
-- src/processors/pg_sink.py: the idempotent Postgres sink.
pub mod Rows
pub mod Tables
pub mod Sink
pub mod Absorbing
pub mod Absorbed
pub mod Replay
pub mod Batches
pub mod Run
pub mod MaxOffsets
pub mod Offsets
