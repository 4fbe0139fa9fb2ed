-- ===== src/Tracing.antt =====
-- trace/aitracer: spans, the trace that shares them, and how a trace is sampled and collected.
pub mod Span
pub mod Sampling
pub mod Emit
pub mod Run
pub mod Context
mod Tests
