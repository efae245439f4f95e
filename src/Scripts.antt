-- ===== src/Scripts.antt =====
-- scripts: the maintenance scripts that have logic of their own.
pub mod ReplayDlq
pub mod CompactIceberg
