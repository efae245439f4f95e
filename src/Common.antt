-- ===== src/Common.antt =====
-- src/common: what every service shares.
pub mod Topics
pub mod Times
pub mod Floats
pub mod Geo
pub mod Events
pub mod Numerals
