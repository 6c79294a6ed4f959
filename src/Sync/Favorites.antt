-- ===== src/Sync/Favorites.antt =====
-- internal/sync/favorites.go: the downloaded favorite tracks as one .m3u8 file, the newest first.
use tidal_syncer.Shared.{Option, none, some, List, [], ◌∷◌, ◌++◌}
use tidal_syncer.Shared.Int.{negsuc}
use tidal_syncer.Failure.{Error, Result, ok, err, ◌>>=◌}
use tidal_syncer.Files.Path.{FilePath, clean, join_path}
use tidal_syncer.Config.Types.{Config}
use tidal_syncer.Store.Db.{Db}
use tidal_syncer.Store.Snapshot.{FavoriteFile, ordered_favorite_files}
use tidal_syncer.Sync.Removal.{kind_tracks}
use tidal_syncer.Sync.Playlist.{
  Disk, Entry, favorites_playlist_name, playlists_dir_name, playlist_ext, relative, write_m3u8,
}
use tidal_syncer.Download.Sweep.{Files}

-- An unknown duration and no artist.
unfoldable pub favorites_entries : FilePath → List FavoriteFile → Result (List Entry)
unfolding relative
favorites_entries folder [] = ok []
favorites_entries folder (file ∷ files) = do
  path ← relative folder (clean file.path)
  rest ← favorites_entries folder files
  ok (record { duration_seconds = negsuc 0; artist = []; title = file.title; path = path } ∷ rest)

abbrev written : Disk → FilePath → Files → Result (List Entry) → Result (Unit {0}) × Files
unfolding write_m3u8
written disk folder files (err e) = (err e, files)
written disk folder files (ok entries) =
    write_m3u8 disk (join_path folder (favorites_playlist_name ++ playlist_ext)) entries files

abbrev export_files : Config → Disk → List FavoriteFile → Files → Result (Unit {0}) × Files
unfolding written favorites_entries
export_files cfg disk [] files = (ok tt, files)
export_files cfg disk (file ∷ rest) files =
    let folder = join_path (clean cfg.paths.music) playlists_dir_name in
    elim disk.mkdir_all [
      | some e ↦ (err e, files)
      | none ↦ written disk folder files (favorites_entries folder (file ∷ rest))
    ]

-- `query` is the error of the statement that reads the files.
unfoldable pub write_favorites :
    Config → Option Error → Disk → Db → Files → Result (Unit {0}) × Files
unfolding export_files ordered_favorite_files
write_favorites cfg query disk db files = elim query [
  | some e ↦ (err e, files)
  | none ↦ export_files cfg disk (ordered_favorite_files kind_tracks db.snapshots db.tracks) files
]
