-- ===== src/Tracer.antt =====
-- The tracer of trace/aitracer as a whole: its configuration, its propagators, its parts, and the
-- settings and logs that it handles.
pub mod Config
pub mod Propagators
pub mod Lifecycle
pub mod Dynamic
pub mod Logging
mod Tests
