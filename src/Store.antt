-- ===== src/Store.antt =====
-- internal/store: the SQLite cache. A table is a map by its primary key; a statement either answers
-- or fails with the error that `fault` gives for it.
pub mod Rows
pub mod Tracks
pub mod Snapshot
pub mod Collection
pub mod Db
pub mod Open
pub mod Migrate
pub mod Stats
