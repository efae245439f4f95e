-- ===== src/Processors/Sessionizer.antt =====
-- src/processors/ride_sessionizer.py: the transactional sessionizer. Its durable parts are the
-- SQLite store and the Kafka broker; the rest is lost when the process ends. Metrics, logs and the
-- clock are left out.
pub mod State
pub mod Recovery
pub mod Batch
pub mod Process
pub mod Once
pub mod Noted
pub mod Letters
pub mod Contents
pub mod Unknown
pub mod Outcomes
