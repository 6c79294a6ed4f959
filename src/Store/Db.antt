-- ===== src/Store/Db.antt =====
-- internal/store: the tables together.
use tidal_syncer.Store.Tracks.{Tracks}
use tidal_syncer.Store.Snapshot.{Snapshots}
use tidal_syncer.Store.Collection.{Collections}

pub record Db : Type 0 where
  pub tracks : Tracks
  pub snapshots : Snapshots
  pub collections : Collections
