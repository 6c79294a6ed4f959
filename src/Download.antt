-- ===== src/Download.antt =====
-- pkg/tidal/download: which tier is asked for, and how often a stream is.
pub mod Band
pub mod Stream
pub mod Sweep
pub mod Atomic
pub mod Fetch
