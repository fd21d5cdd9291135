-- ===== src/Api.antt =====
-- internal/api/server.go, in parts.
pub mod Sessions
pub mod Dashboard
pub mod Gate
pub mod TokenBucket
pub mod Triggers
pub mod Prompt
pub mod Ask
pub mod Router
