-- ===== src/Namer.antt =====
-- internal/namer: file-name templates rendered into safe relative paths. Metadata is a list of code
-- points, which valid UTF-8 stands for; a path component is a list of bytes.
pub mod Utf8
pub mod Sanitize
pub mod Template
