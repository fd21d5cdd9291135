-- ===== src/Scanner.antt =====
-- internal/scanner, in parts.
pub mod Paths
pub mod Docker
pub mod Host
pub mod BigFiles
pub mod Stamps
