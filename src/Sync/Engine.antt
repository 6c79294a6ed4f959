-- ===== src/Sync/Engine.antt =====
-- internal/sync/engine.go: one synchronization pass.
pub mod Totals
use tidal_syncer.Shared.{
  ℕ, Bool, true, false, Option, none, some, List, [], ◌∷◌, map, Text, text_eq, nat_eq, ◌==◌,
  if◌then◌else◌,
}
use tidal_syncer.Shared.Map.{Map, lookup}
use tidal_syncer.Shared.Decimal.{itoa}
use tidal_syncer.Failure.{Error, Result, ok, err, ◌>>=◌, ◌>>◌}
use tidal_syncer.Tidal.Dto.{Track}
use tidal_syncer.Namer.Template.{join}
use tidal_syncer.Config.Types.{Config}
use tidal_syncer.Store.Db.{Db}
use tidal_syncer.Store.Tracks.{Tracks, GenreGap, tracks_missing_genre, set_track_genre}
use tidal_syncer.Store.Snapshot.{SnapshotItem}
use tidal_syncer.Sync.Ports.{Ports, select_gaps, update_genre}
use tidal_syncer.Sync.AlbumCache.{empty_cache}
use tidal_syncer.Sync.Process.{Run, process_track}
use tidal_syncer.Sync.Enumerate.{enumerate}

pub record Summary : Type 0 where
  pub downloaded : ℕ
  pub skipped : ℕ
  pub failed : ℕ

-- The loop of `backfillGenres`: it stops at the first update that fails.
abbrev filled : Option Error → Text → Text → Tracks → (Tracks → Tracks) → Tracks
filled none id genre db rest = rest (set_track_genre id genre db)
filled (some e) id genre db rest = db

abbrev read_genres : Option Error → Text → Result (List Text) → Tracks → (Tracks → Tracks) → Tracks
read_genres fault id (err e) db rest = rest db
read_genres fault id (ok genres) db rest =
    let genre = join b';' genres in if genre == [] then rest db else filled fault id genre db rest

fill_genres : Ports → List GenreGap → Tracks → Tracks
fill_genres ports [] db = db
fill_genres ports (gap ∷ gaps) db =
    read_genres (ports.fault update_genre) gap.tidal_id (ports.read_genre gap.path) db
      (fill_genres ports gaps)

-- Its error is logged and dropped.
unfoldable pub backfill_genres : Ports → Tracks → Tracks
unfolding fill_genres
backfill_genres ports db = elim (ports.fault select_gaps) [
  | none ↦ fill_genres ports (tracks_missing_genre db) db
  | some e ↦ db
]

-- The workers of `downloadAll` in the order in which they get through the limiter and the jitter; a
-- worker that does not leaves its track, and the first such error is the group's.
abbrev gate : Ports → ℕ → Result (Unit {0})
gate ports id = do ports.limit id; ports.jitter id

abbrev first_of : Option Error → Error → Option Error
first_of none e = some e
first_of (some e) later = some e

module _ (nfc : Text → Text) (ports : Ports) (cfg : Config) (retry_failed : Bool) where
  abbrev work : Track → Result (Unit {0}) → Run × Option Error → Run × Option Error
  work track (ok u) (r, failure) = (process_track nfc ports cfg retry_failed track r, failure)
  work track (err e) (r, failure) = (r, first_of failure e)

  unfoldable pub run_workers : List Track → Run × Option Error → Run × Option Error
  run_workers [] state = state
  run_workers (track ∷ tracks) state = run_workers tracks (work track (gate ports track.id) state)

  group_error : Run × Option Error → Result (Unit {0}) × Run
  group_error (r, some e) = (err e, r)
  group_error (r, none) = (ports.context, r)

  unfoldable pub download_all : List Track → Run → Result (Unit {0}) × Run
  unfolding run_workers group_error
  download_all tracks r = group_error (run_workers tracks (r, none))

  date_of : Option Text → Text
  date_of none = []
  date_of (some date) = date

  abbrev snapshot_item : Map ℕ Text → Track → SnapshotItem
  snapshot_item dates track = record {
    tidal_id = itoa track.id;
    name = track.title;
    added_at = date_of (lookup track.id dates);
  }

  unfoldable pub snapshot_items : List Track → Map ℕ Text → List SnapshotItem
  unfolding date_of
  snapshot_items tracks dates = map (snapshot_item dates) tracks

  abbrev start : Tracks → Run
  start tracks = record {
    tracks = tracks;
    albums = empty_cache;
    downloaded = 0;
    skipped = 0;
    failed = 0;
  }

  finish_pass :
      Db
      → List Track × Map ℕ Text
      → Result (Unit {0}) × Run
      → Result (Summary × List SnapshotItem) × Db
  unfolding snapshot_items
  finish_pass db found (err e, r) = (err e, record db { tracks = r.tracks })
  finish_pass db (tracks, dates) (ok u, r) = (
    ok (
      record { downloaded = r.downloaded; skipped = r.skipped; failed = r.failed },
      snapshot_items tracks dates,
    ),
    record db { tracks = r.tracks },
  )

  enumerated : Db → Result (List Track × Map ℕ Text) → Result (Summary × List SnapshotItem) × Db
  unfolding download_all finish_pass
  enumerated db (err e) = (err e, db)
  enumerated db (ok (tracks, dates)) =
      finish_pass db (tracks, dates) (download_all tracks (start db.tracks))

  validated : Result Text → Db → Result (Summary × List SnapshotItem) × Db
  unfolding backfill_genres enumerated enumerate
  validated (err e) db = (err e, db)
  validated (ok user) db =
      let filled = backfill_genres ports db.tracks in
      let (answer, collections) = enumerate nfc ports cfg retry_failed filled db.collections in
      enumerated (record db { tracks = filled; collections = collections }) answer

  unfoldable pub sync_once : Db → Result (Summary × List SnapshotItem) × Db
  unfolding validated
  sync_once db = validated ports.user_id db
