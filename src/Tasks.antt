-- ===== src/Tasks.antt =====
-- benchmark/tasks.py
pub mod Model
pub mod Paths
pub mod Validate
pub mod Select
pub mod Project
pub mod Capture
