-- ===== src/Contrib.antt =====
-- The integrations under trace/contrib that have logic of their own.
pub mod Url
pub mod Path
pub mod Gin
pub mod Grpc
pub mod HttpClient
pub mod Linked
