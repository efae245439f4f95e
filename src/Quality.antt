-- ===== src/Quality.antt =====
-- src/quality: the gates that check the tables.
pub mod Suites
pub mod Runner
