-- ===== src/Main.antt =====
-- cmd/ssm/main.go, in parts.
pub mod Bars
pub mod Status
pub mod Report
pub mod Scan
pub mod Jobs
pub mod Daemon
pub mod Commands
