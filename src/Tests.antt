-- ===== src/Tests.antt =====
-- Concrete data for the examples, and the theorems applied to it.
pub mod Data
pub mod Names
pub mod Passes
pub mod Stores
pub mod Services
pub mod Exports
pub mod Schema
