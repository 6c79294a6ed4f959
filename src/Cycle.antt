-- ===== src/Cycle.antt =====
-- cmd/sync.go, `executeSync` up to the export of the playlists: the pass, the removals, and the
-- snapshot for the next run.
pub mod Retry
pub mod Export
use tidal_syncer.Shared.{Bool, Option, none, some, List, [], ◌∷◌, ◌++◌, map, Text}
use tidal_syncer.Failure.{Error, Result, ok, err}
use tidal_syncer.Files.Path.{FilePath, clean}
use tidal_syncer.Config.Types.{Config}
use tidal_syncer.Store.Db.{Db}
use tidal_syncer.Store.Snapshot.{SnapshotItem, Snapshots, replace_snapshot}
use tidal_syncer.Sync.Ports.{Ports, replace_rows}
use tidal_syncer.Sync.Process.{query}
use tidal_syncer.Sync.Removal.{Os, Log, reconcile, kind_tracks}
use tidal_syncer.Sync.Engine.{Summary, sync_once}

-- What a cycle leaves: its answer, the store, and the calls of the file system that the removal made.
pub record Cycle : Type 0 where
  pub answer : Result (Unit {0})
  pub db : Db
  pub log : Log

abbrev pub pending_item : Text → SnapshotItem
pending_item id = record { tidal_id = id; name = []; added_at = [] }

-- The items of the pass, and those whose removal is still pending.
unfoldable pub next_snapshot : List SnapshotItem → List Text → List SnapshotItem
next_snapshot current pending = current ++ map pending_item pending

abbrev replaced : Db → Log → Result Snapshots → Cycle
replaced db log (err e) = record { answer = err e; db = db; log = log }
replaced db log (ok snapshots) = record {
  answer = ok tt;
  db = record db { snapshots = snapshots };
  log = log;
}

module _ (nfc : Text → Text) (ports : Ports) (cfg : Config) (retry_failed : Bool) (os : Os) where
  refresh : Db → List SnapshotItem → Result (List Text) × Log → Cycle
  unfolding next_snapshot query
  refresh db current (err e, log) = record { answer = err e; db = db; log = log }
  refresh db current (ok pending, log) = replaced db log (
      query (ports.fault replace_rows)
        (replace_snapshot kind_tracks (next_snapshot current pending) db.snapshots))

  after_pass : Result (Summary × List SnapshotItem) × Db → Cycle
  unfolding refresh reconcile
  after_pass (err e, db) = record { answer = err e; db = db; log = [] }
  after_pass (ok (summary, current), db) =
      refresh db current
        (reconcile os (clean cfg.paths.music) ports.fault cfg.removal_policy db current [])

  unfoldable pub execute_sync : Db → Cycle
  unfolding after_pass sync_once
  execute_sync db = after_pass (sync_once nfc ports cfg retry_failed db)
