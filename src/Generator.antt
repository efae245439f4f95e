-- ===== src/Generator.antt =====
-- src/generator: what writes ride events, payments and driver positions.
pub mod StateMachine
pub mod Random
pub mod Config
pub mod Events
pub mod Imperfections
pub mod Fleet
pub mod Rides
pub mod Cities
pub mod Drivers
pub mod Producer
pub mod Diurnal
pub mod Simulate
