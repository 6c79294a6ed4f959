-- ===== src/Config.antt =====
-- internal/config: the configuration, its defaults and its validation. Decoding the YAML file is a
-- library's; what it gives is a `Config`.
pub mod Clock
pub mod Types
pub mod TemplateCheck
pub mod Validate
