-- ===== src/Profiler.antt =====
-- aiprofiler: the drivers that turn profile settings into tasks, the manager that dispatches the
-- settings to them, and the monitor of resources.
pub mod Task
pub mod Channel
pub mod ById
pub mod Timed
pub mod Continuous
pub mod Conditional
pub mod Manager
pub mod ResMonitor
pub mod Collect
pub mod Upload
pub mod Presets
mod Tests
