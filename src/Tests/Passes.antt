-- ===== src/Tests/Passes.antt =====
-- Whole passes over one track, and the removal of another.
use tidal_syncer.Shared.{
  ℕ, suc, ◌+◌, ◌≤◌, ◌≡◌, ◌≢◌, ◌↔◌, ◌⊎◌, inl, inr, refl, Bool, true, false, not, ◌&&◌, ◌||◌, Option,
  none, some, List, [], ◌∷◌, ◌++◌, Text, codes, contains, leb, length, All, text_eq, ◌==◌, arith,
}
use tidal_syncer.Shared.Map.{Map, lookup}
use tidal_syncer.Shared.Decimal.{itoa}
use tidal_syncer.Failure.{Error, canceled, deadline_exceeded, is, Result, ok, err}
use tidal_syncer.Tidal.Quality.{lossless, hi_res_lossless, rank}
use tidal_syncer.Files.Path.{clean}
use tidal_syncer.Store.Tracks as Tracks
use tidal_syncer.Store.Tracks.{Tracks}
use tidal_syncer.Store.Rows.{Distinct}
use tidal_syncer.Store.Db.{Db}
use tidal_syncer.Store.Snapshot.{SnapshotItem, ids, rows, diff_snapshot}
use tidal_syncer.Sync.PermanentFailure.{permanent_failure}
use tidal_syncer.Sync.Process.{Run, is_cancellation, process_track, should_skip}
use tidal_syncer.Sync.Process.Outcome.{Fails, Outcome, process_track-Outcome}
use tidal_syncer.Sync.Process.Skip.{
  should_skip_after_download, should_skip_after_failure, process_track-keeps_file,
}
use tidal_syncer.Sync.Enumerate.{enumerate}
use tidal_syncer.Sync.Enumerate.Order.{IsAscending, enumerate-IsAscending}
use tidal_syncer.Sync.Engine.{Summary, sync_once}
use tidal_syncer.Sync.Engine.Totals.{sync_once-counts}
use tidal_syncer.Sync.Removal.{Os, Log, reconcile, within_music, starts_up, kind_tracks}
use tidal_syncer.Sync.Removal.Within.{within_music_lem}
use tidal_syncer.Sync.Removal.Sandbox.{IsInside, reconcile-IsInside}
use tidal_syncer.Cycle.{next_snapshot, execute_sync}
use tidal_syncer.Cycle.Retry.{execute_sync-retries}
use tidal_syncer.Store.Rows.{Distinct}
use tidal_syncer.Sync.AlbumCache.{AlbumEntry}
use tidal_syncer.Sync.AlbumCache.Race.{run_loads, at_start}
use tidal_syncer.Sync.AlbumCache.Race.Once.{run_loads-IsOnce}
use tidal_syncer.Tests.Data.{
  disc, same_text, config, ports, no_album, start, song, old_row, db, refusing,
}

process_track-Outcome_example :
    Outcome same_text ports config false song start
      (process_track same_text ports config false song start)
process_track-Outcome_example = process_track-Outcome same_text ports config false song start

should_skip_after_download_example :
    should_skip same_text ports config true 7
      (process_track same_text ports config false song start).tracks
    ≡ ok true
unfolding process_track rank Tracks.get_track lookup tidal_syncer.Failure.is
    tidal_syncer.Failure.mark_eq tidal_syncer.Sync.AlbumCache.load
    tidal_syncer.Namer.Template.render tidal_syncer.Namer.Template.compile
    tidal_syncer.Shared.nat_eq text_eq tidal_syncer.Sync.Meta.build_track_meta
should_skip_after_download_example =
    should_skip_after_download same_text ports config false song start refl ports config true refl

should_skip_after_failure_example :
    (cause : Error) × Fails same_text no_album config false song start cause
    × (is cause canceled ≡ false)
    × (is cause deadline_exceeded ≡ false)
    × (should_skip same_text ports config false 7
          (process_track same_text no_album config false song start).tracks
        ≡ ok (
            not false
            && (permanent_failure cause && leb (rank hi_res_lossless) (rank hi_res_lossless))))
unfolding process_track Tracks.get_track lookup tidal_syncer.Failure.is tidal_syncer.Failure.mark_eq
    tidal_syncer.Sync.AlbumCache.load is_cancellation
should_skip_after_failure_example =
    should_skip_after_failure same_text no_album config false song start refl refl ports config
      false refl

-- The run before the failure has the file.
abbrev again : Run
again = record start { tracks = (codes "7", old_row) ∷ [] }

process_track-keeps_file_example :
    (row : Tracks.Track) × (lookup
        (codes "7")
        (process_track same_text no_album config false song again).tracks
      ≡ some row)
    × (row.path ≡ old_row.path)
    × (row.obtained_quality ≡ lossless)
    × (row.genre ≡ codes "Pop")
unfolding process_track lookup itoa text_eq Tracks.get_track tidal_syncer.Sync.Process.skip_row rank
    tidal_syncer.Sync.AlbumCache.load is_cancellation tidal_syncer.Failure.is
    tidal_syncer.Failure.mark_eq
process_track-keeps_file_example =
    process_track-keeps_file same_text no_album config false song again old_row refl refl

enumerate-IsAscending_example : IsAscending (song ∷ [])
unfolding enumerate tidal_syncer.Sync.Enumerate.collect_favorite_tracks
    tidal_syncer.Shared.Sort.sort tidal_syncer.Shared.Map.insert
enumerate-IsAscending_example =
    enumerate-IsAscending same_text ports config false [] [] (song ∷ []) ((7, codes "2021") ∷ [])
      refl

abbrev item : SnapshotItem
item = record { tidal_id = codes "7"; name = codes "Song"; added_at = codes "2021" }

abbrev summary : Summary
summary = record { downloaded = 1; skipped = 0; failed = 0 }

sync_once-counts_example : Distinct (ids (item ∷ [])) × (1 ≤ length (item ∷ []))
unfolding sync_once tidal_syncer.Sync.Enumerate.collect_favorite_tracks
    tidal_syncer.Shared.Sort.sort tidal_syncer.Shared.Map.insert process_track itoa lookup
    Tracks.get_track tidal_syncer.Shared.nat_eq Tracks.tracks_missing_genre text_eq
    tidal_syncer.Failure.is tidal_syncer.Failure.mark_eq tidal_syncer.Sync.AlbumCache.load
    tidal_syncer.Namer.Template.render tidal_syncer.Namer.Template.compile
    tidal_syncer.Sync.Meta.build_track_meta
sync_once-counts_example = sync_once-counts same_text ports config false db summary (item ∷ []) refl

within_music_lem_example :
    (within_music (clean (codes "/m")) (clean (codes "/m/a/9.flac")) ≡ true) ↔ (
      (r : List Text) × (clean (codes "/m/a/9.flac")
        ≡ record (clean (codes "/m")) { parts = (clean (codes "/m")).parts ++ r })
      × (starts_up r ≡ false))
within_music_lem_example = within_music_lem (clean (codes "/m")) (clean (codes "/m/a/9.flac"))

-- A system that grants every call and finds every directory empty.
abbrev granting : Os
granting log call = ok 0

reconcile-IsInside_example :
    All
      (IsInside (clean (codes "/m")))
      (reconcile granting (clean (codes "/m")) ports.fault (codes "trash") db (item ∷ []) []).1
reconcile-IsInside_example =
    reconcile-IsInside granting (clean (codes "/m")) ports.fault (codes "trash") db (item ∷ [])

abbrev after : Db
after = (sync_once same_text ports config false db).1

abbrev log : Log
log =
    (reconcile refusing (clean config.paths.music) ports.fault config.removal_policy after
      (item ∷ []) []).1

execute_sync-retries_example :
    (later : Db) × (execute_sync same_text ports config false refusing db
      ≡ record { answer = ok tt; db = later; log = log })
    × (rows kind_tracks later.snapshots ≡ next_snapshot (item ∷ []) (codes "9" ∷ []))
    × ((next : List SnapshotItem) (id : Text)
        → contains (diff_snapshot kind_tracks next later.snapshots).removed id ≡ (
            (contains (ids (item ∷ [])) id || contains (codes "9" ∷ []) id)
            && not (contains (ids next) id)))
unfolding sync_once reconcile tidal_syncer.Sync.Enumerate.collect_favorite_tracks
    tidal_syncer.Shared.Sort.sort tidal_syncer.Shared.Map.insert process_track itoa lookup
    Tracks.get_track tidal_syncer.Shared.nat_eq Tracks.tracks_missing_genre text_eq
    tidal_syncer.Failure.is tidal_syncer.Failure.mark_eq tidal_syncer.Sync.AlbumCache.load
    tidal_syncer.Namer.Template.render tidal_syncer.Namer.Template.compile
    tidal_syncer.Sync.Meta.build_track_meta diff_snapshot Tracks.mark_track within_music clean
execute_sync-retries_example =
    execute_sync-retries same_text ports config false refusing db after summary (item ∷ [])
      (codes "9" ∷ []) log refl refl refl

abbrev album_entry : AlbumEntry
album_entry = ok (disc, [])

-- Two workers ask for the same album; the second comes while the loader of the first runs, and waits.
abbrev wanted : ℕ → Text
wanted w = codes "3"

abbrev turns : List (ℕ × AlbumEntry)
turns =
    (0, album_entry)
    ∷ (1, album_entry)
    ∷ (0, album_entry)
    ∷ (1, album_entry)
    ∷ (0, album_entry)
    ∷ (1, album_entry)
    ∷ []

run_loads-IsOnce_example : Distinct (run_loads turns (at_start wanted)).loads
run_loads-IsOnce_example = run_loads-IsOnce wanted turns

loaded_once : (run_loads turns (at_start wanted)).loads ≡ codes "3" ∷ []
unfolding run_loads lookup tidal_syncer.Shared.Map.insert text_eq tidal_syncer.Shared.nat_eq
loaded_once = refl
