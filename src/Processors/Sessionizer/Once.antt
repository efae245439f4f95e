-- ===== src/Processors/Sessionizer/Once.antt =====
-- Sessions against a process that dies at any point: what is published, and which close covers it.
pub mod Stores
pub mod Offsets
pub mod Closes
pub mod Folds
pub mod Rides
pub mod Steps
pub mod Sound
pub mod Shown
pub mod Commits
pub mod Assignments
pub mod Published
