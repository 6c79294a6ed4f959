-- ===== src/Sync.antt =====
-- internal/sync: the orchestration of a run.
pub mod Meta
pub mod PermanentFailure
pub mod Ports
pub mod AlbumCache
pub mod Process
pub mod Enumerate
pub mod Removal
pub mod Playlist
pub mod Favorites
pub mod Engine
