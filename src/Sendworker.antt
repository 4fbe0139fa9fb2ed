-- ===== src/Sendworker.antt =====
-- trace/internal/sendworker: the framing of a batch (encoder.go) and the two workers that write
-- batches to the agent's socket (worker.go).
pub mod Encoder
pub mod Worker
pub mod Interface
