-- ===== src/Files.antt =====
-- Path names as Go's path/filepath takes them on Unix.
pub mod Path
