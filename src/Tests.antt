-- ===== src/Tests.antt =====
-- Runs of the programs on concrete inputs, and the theorems applied to them.
pub mod Samples
pub mod Life
pub mod Rides
pub mod Stores
pub mod Sinks
pub mod Letters
pub mod Lakes
pub mod Drives
pub mod Runs
pub mod Compactions
pub mod Batches
pub mod Ticks
pub mod Gates
