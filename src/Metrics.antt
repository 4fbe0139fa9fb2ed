-- ===== src/Metrics.antt =====
-- metrics: the client that queues metrics, their wire format, and the loop that packs them.
pub mod Format
pub mod Client
pub mod Packets
mod Tests
