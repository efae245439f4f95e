-- ===== src/Processors.antt =====
-- src/processors: the services that consume the ride topics.
pub mod SessionBuilder
pub mod StateStore
pub mod Sessionizer
pub mod PgSink
