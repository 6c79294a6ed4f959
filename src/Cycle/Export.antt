-- ===== src/Cycle/Export.antt =====
-- cmd/sync.go: `executeSync` with its exports, and `runSync` around it; and internal/lock/lock.go, the
-- lock that keeps two runs apart.
pub mod Locked
use tidal_syncer.Shared.{
  Bool, not, ◌&&◌, Option, none, some, List, [], ◌∷◌, ◌++◌, Text, if◌then◌else◌,
}
use tidal_syncer.Failure.{Error, another_sync_running, locked, would_block, is, Result, ok, err}
use tidal_syncer.Files.Path.{FilePath}
use tidal_syncer.Config.Types.{Config}
use tidal_syncer.Store.Db.{Db}
use tidal_syncer.Store.Migrate.{Catalog, File, Faults, migrate}
use tidal_syncer.Sync.Ports.{Ports}
use tidal_syncer.Sync.Removal.{Os, Log}
use tidal_syncer.Sync.Playlist.{Disk, write_playlists}
use tidal_syncer.Sync.Favorites.{write_favorites}
use tidal_syncer.Download.Sweep.{Files, Visit, Swept, sweep_stale}
use tidal_syncer.Cycle.{Cycle, execute_sync}

-- The errors of opening the lock file, of `flock`, and of closing the file behind a `flock` that failed.
pub record LockFile : Type 0 where
  pub open_file : Option Error
  pub flock : Option Error
  pub close : Option Error

abbrev unlocked : Error → Option Error → Result (Unit {0})
unlocked e (some c) = err (e ++ c)
unlocked e none = if is e would_block then err (locked ∷ []) else err e

abbrev flocked : Option Error → Option Error → Result (Unit {0})
flocked none close = ok tt
flocked (some e) close = unlocked e close

unfoldable pub try_acquire : LockFile → Result (Unit {0})
try_acquire l = elim l.open_file [ some e ↦ err e | none ↦ flocked l.flock l.close ]

-- What a run changes: the schema, the rows, and the files of the music volume.
pub record State : Type 0 where
  pub catalog : Catalog
  pub db : Db
  pub files : Files

module _ (nfc : Text → Text) (ports : Ports) (cfg : Config) where
  unfoldable pub export_playlists : Disk → Files → Result (Unit {0}) × Files
  unfolding write_playlists
  export_playlists disk files =
      if not cfg.scope.all && not cfg.scope.favorites.playlists
      then (ok tt, files)
      else write_playlists nfc ports cfg disk files

  unfoldable pub export_favorites : Option Error → Disk → Db → Files → Result (Unit {0}) × Files
  unfolding write_favorites
  export_favorites query disk db files =
      if not cfg.scope.all && not cfg.scope.favorites.tracks
      then (ok tt, files)
      else write_favorites cfg query disk db files

  -- `volume` gives the files behind the pass and the calls of the removal.
  module _ (retry_failed : Bool) (os : Os) (volume : Log → Files) (playlists favorites : Disk)
      (query : Option Error) where
    abbrev then_favorites : Db → Result (Unit {0}) × Files → Result (Unit {0}) × Files
    unfolding export_favorites
    then_favorites db (err e, files) = (err e, files)
    then_favorites db (ok u, files) = export_favorites query favorites db files

    abbrev exported : Db → Log → Result (Unit {0}) → Result (Unit {0}) × Files
    unfolding export_playlists then_favorites
    exported db log (err e) = (err e, volume log)
    exported db log (ok u) = then_favorites db (export_playlists playlists (volume log))

    -- The answer of `executeSync`, with the rows and the files behind it.
    unfoldable pub sync_and_export : Db → Result (Unit {0}) × Db × Files
    unfolding execute_sync exported
    sync_and_export db =
        let c = execute_sync nfc ports cfg retry_failed os db in
        let (answer, files) = exported c.db c.log c.answer in (answer, c.db, files)

-- What `runSync` meets before the cycle.
pub record Host : Type 0 where
  pub load : Result Config
  pub logger : Result (Unit {0})
  pub open_store : Result (Unit {0})
  pub ensure : Faults
  pub faults : Text → Faults
  pub chmod : Option Error
  pub migrations : List File
  pub lock_file : LockFile
  pub open_root : Option Error
  pub visits : List Visit
  pub remove : FilePath → Option Error

module _ (host : Host) (cycle : Config → Db → Files → Result (Unit {0}) × Db × Files) where
  abbrev cycled : State → Result (Unit {0}) × Db × Files → Result (Unit {0}) × State
  cycled s (answer, db, files) = (answer, record s { db = db; files = files })

  abbrev swept : Config → State → Option Error → Result (Unit {0}) × State
  swept cfg s (some e) = (err e, s)
  swept cfg s none = cycled s (cycle cfg s.db s.files)

  abbrev contended : Error → Error
  contended e = if is e locked then another_sync_running ∷ [] else e

  abbrev acquired : Config → State → Result (Unit {0}) → Result (Unit {0}) × State
  unfolding sweep_stale
  acquired cfg s (err e) = (err (contended e), s)
  acquired cfg s (ok u) =
      let sweep = sweep_stale host.open_root host.visits host.remove s.files in
      swept cfg (record s { files = sweep.files }) sweep.errors

  abbrev migrated : Config → State → Result (Unit {0}) × Catalog → Result (Unit {0}) × State
  unfolding acquired try_acquire
  migrated cfg s (err e, catalog) = (err e, record s { catalog = catalog })
  migrated cfg s (ok u, catalog) =
      acquired cfg (record s { catalog = catalog }) (try_acquire host.lock_file)

  abbrev opened : Config → State → Result (Unit {0}) → Result (Unit {0}) × State
  unfolding migrated migrate
  opened cfg s (err e) = (err e, s)
  opened cfg s (ok u) =
      migrated cfg s (migrate host.ensure host.faults host.chmod host.migrations s.catalog)

  abbrev logging : Config → State → Result (Unit {0}) → Result (Unit {0}) × State
  unfolding opened
  logging cfg s (err e) = (err e, s)
  logging cfg s (ok u) = opened cfg s host.open_store

  abbrev loaded : State → Result Config → Result (Unit {0}) × State
  unfolding logging
  loaded s (err e) = (err e, s)
  loaded s (ok cfg) = logging cfg s host.logger

  -- `cycle` is `executeSync` under a configuration, on the rows and the files behind the sweep.
  unfoldable pub run_sync : State → Result (Unit {0}) × State
  unfolding loaded
  run_sync s = loaded s host.load
