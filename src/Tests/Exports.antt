-- ===== src/Tests/Exports.antt =====
-- The exports, the sweep, and a run beside another.
use tidal_syncer.Shared.{
  ℕ, Bool, true, false, ◌&&◌, Option, none, some, inl, inr, List, [], ◌∷◌, ◌++◌, map, All, Text,
  codes, if◌then◌else◌, ◌≡◌, ◌⊎◌, refl,
}
use tidal_syncer.Shared.Map.{lookup}
use tidal_syncer.Shared.Int.{negsuc}
use tidal_syncer.Failure.{would_block, Result, ok}
use tidal_syncer.Tidal.Quality.{lossless}
use tidal_syncer.Files.Path.{FilePath, path_eq, join_path, to_text}
use tidal_syncer.Config.Types.{Config}
use tidal_syncer.Store.Db.{Db}
use tidal_syncer.Store.Migrate.{Faults}
use tidal_syncer.Namer.Template.{compile, render}
use tidal_syncer.Namer.Template.Paths.{Lacks}
use tidal_syncer.Sync.Meta.{build_track_meta}
use tidal_syncer.Sync.Process.{fetch_file}
use tidal_syncer.Sync.Playlist.{
  Disk, Entry, is_orphan, removable, prune_orphans, m3u8_text, path_with, playlists_dir,
  favorites_playlist_name, newline,
}
use tidal_syncer.Sync.Playlist.Reader.{read_m3u8, read-m3u8_text}
use tidal_syncer.Sync.Playlist.Resolve.{path_with-eq-fetch_file}
use tidal_syncer.Download.Sweep.{Files, Visit, sweep_stale}
use tidal_syncer.Download.Sweep.Laws.{IsPart, sweep_stale-keeps, sweep_stale-removes}
use tidal_syncer.Cycle.Export.{State, Host, run_sync}
use tidal_syncer.Cycle.Export.Locked.{Idles, run_sync-Idles}
use tidal_syncer.Tests.Data.{same_text, song, disc, config, ports, db}

-- A template without tokens, under which each track has the same file.
abbrev fixed : Config
fixed = record config { path_template = codes "a" }

abbrev song_file : Text
song_file = codes "/m/a"

abbrev song_path : Text
song_path = codes "../a"

rendered :
    render same_text (compile fixed.path_template) (build_track_meta song disc) ≡ ok (codes "a")
unfolding render compile tidal_syncer.Shared.nat_eq tidal_syncer.Shared.text_eq build_track_meta
    tidal_syncer.Namer.Sanitize.sanitize tidal_syncer.Namer.Sanitize.finish
    tidal_syncer.Namer.Sanitize.or_placeholder tidal_syncer.Namer.Sanitize.trim_right
    tidal_syncer.Namer.Sanitize.truncate_to_bytes tidal_syncer.Namer.Sanitize.suffix_if_reserved
    tidal_syncer.Namer.Sanitize.stem_of tidal_syncer.Namer.Utf8.encode
    tidal_syncer.Namer.Sanitize.sanitize_rune tidal_syncer.Namer.Sanitize.is_control
    tidal_syncer.Namer.Sanitize.keep_head tidal_syncer.Namer.Sanitize.is_reserved
    tidal_syncer.Namer.Sanitize.reserved_names
rendered = refl

song_path_rendered :
    path_with same_text ports fixed (playlists_dir same_text ports fixed) song disc ≡ ok song_path
unfolding path_with playlists_dir join_path tidal_syncer.Sync.Playlist.relative
    tidal_syncer.Files.Path.clean tidal_syncer.Shared.text_eq tidal_syncer.Shared.nat_eq
song_path_rendered = rw rendered refl

song_file_written : fetch_file same_text ports fixed false song disc [] ≡ ok (song_file, lossless)
unfolding fetch_file to_text join_path tidal_syncer.Files.Path.clean tidal_syncer.Shared.text_eq
    tidal_syncer.Shared.nat_eq tidal_syncer.Sync.Process.write_tags
song_file_written = rw rendered refl

path_with-eq-fetch_file_example :
    song_file ≡ to_text (join_path (playlists_dir same_text ports fixed) song_path)
path_with-eq-fetch_file_example =
    path_with-eq-fetch_file same_text (λ s h. h) ports fixed false song disc [] song_path song_file
      lossless song_path_rendered song_file_written

abbrev favorite : Entry
favorite = record {
  duration_seconds = negsuc 0;
  artist = [];
  title = codes "Go";
  path = codes "../a.flac";
}

read-m3u8_text_example : read_m3u8 (m3u8_text (favorite ∷ [])) ≡ codes "../a.flac" ∷ []
unfolding tidal_syncer.Shared.nat_eq
read-m3u8_text_example =
    read-m3u8_text (favorite ∷ []) ((tt, (refl, (refl, tt)), one_line, refl), tt)
  where
    one_line : Lacks newline favorite.path
    one_line = (refl, (refl, (refl, (refl, (refl, (refl, (refl, (refl, (refl, tt)))))))))

abbrev folder : FilePath
folder = record { rooted = true; parts = codes "m" ∷ codes "Playlists" ∷ [] }

abbrev below : Text → FilePath
below name = record { rooted = true; parts = codes "m" ∷ codes "Playlists" ∷ name ∷ [] }

abbrev exports : Files
exports =
    (below (codes "Old.m3u8"), codes "#EXTM3U")
    ∷ (below (codes "Favorite Tracks.m3u8"), codes "#EXTM3U")
    ∷ (below (codes "cover.jpg"), codes "x")
    ∷ []

abbrev sound : Disk
sound = record {
  mkdir_all = none;
  write = λ p. none;
  torn = λ p. none;
  rename = λ p. none;
  read_dir = none;
  remove = λ p. none;
}

-- The favorites and what is no playlist stay.
pruned_exports :
    map
      (λ (p : FilePath × Text). p.0)
      (prune_orphans sound folder (favorites_playlist_name ∷ []) exports)
    ≡ below (codes "Favorite Tracks.m3u8") ∷ below (codes "cover.jpg") ∷ []
unfolding prune_orphans path_eq tidal_syncer.Shared.text_eq tidal_syncer.Shared.nat_eq
pruned_exports = refl

abbrev orphan : FilePath
orphan = below (codes ".a.flac.1.part")

abbrev left_over : Files
left_over = (orphan, codes "fLa") ∷ (below (codes "a.flac"), codes "fLaC") ∷ []

abbrev visits : List Visit
visits =
    record { path = folder; is_dir = true; failed = none }
    ∷ record { path = orphan; is_dir = false; failed = none }
    ∷ record { path = below (codes "a.flac"); is_dir = false; failed = none }
    ∷ []

orphan_is_part : IsPart orphan
orphan_is_part = record { folder = folder.parts; front = codes ".a.flac.1"; parts = refl }

sweep_stale-removes_example :
    lookup orphan (sweep_stale none visits (λ p. none) left_over).files ≡ none
sweep_stale-removes_example =
    sweep_stale-removes visits (λ p. none) left_over orphan orphan_is_part refl
      (refl, (refl, (refl, tt))) (inr (inl (refl, refl)))

sweep_stale-keeps_example :
    (lookup (below (codes "a.flac")) (sweep_stale none visits (λ p. none) left_over).files
      ≡ lookup (below (codes "a.flac")) left_over)
    ⊎ IsPart (below (codes "a.flac"))
sweep_stale-keeps_example =
    sweep_stale-keeps none visits (λ p. none) left_over (below (codes "a.flac"))

swept_one : (sweep_stale none visits (λ p. none) left_over).removed ≡ 1
unfolding sweep_stale tidal_syncer.Shared.nat_eq
swept_one = refl

abbrev pub no_faults : Faults
no_faults = record {
  check = none;
  read = none;
  conn = none;
  begin = none;
  recheck = none;
  exec = none;
  insert = none;
  commit = none;
}

-- Another process holds the lock.
abbrev beside : Host
beside = record {
  load = ok config;
  logger = ok tt;
  open_store = ok tt;
  ensure = no_faults;
  faults = λ name. no_faults;
  chmod = none;
  migrations = [];
  lock_file = record { open_file = none; flock = some (would_block ∷ []); close = none };
  open_root = none;
  visits = visits;
  remove = λ p. none;
}

abbrev at_start : State
at_start = record {
  catalog = record { table = false; versions = []; executed = [] };
  db = db;
  files = left_over;
}

abbrev wiping : Config → Db → Files → Result (Unit {0}) × Db × Files
wiping cfg db files = (ok tt, db, [])

run_sync-Idles_example : Idles at_start (run_sync beside wiping at_start)
run_sync-Idles_example = run_sync-Idles beside wiping at_start (would_block ∷ []) refl
