-- ===== src/Tidal.antt =====
-- pkg/tidal: the API client's data and pure rules.
pub mod Quality
pub mod Dto
pub mod Pages
pub mod Client
