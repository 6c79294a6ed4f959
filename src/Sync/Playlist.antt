-- ===== src/Sync/Playlist.antt =====
-- internal/sync/playlist.go: the favorite playlists as .m3u8 files under the music root. The files are
-- those of the volume; `ReadDir` gives those that stand directly below a directory.
pub mod Resolve
pub mod Reader
pub mod Prune
use mathlib.Core.List.{reverse}
use tidal_syncer.Shared.{
  ℕ, suc, ◌-◌, Bool, true, false, not, ◌&&◌, ◌||◌, Option, none, some, List, [], ◌∷◌, ◌++◌, map,
  Text, codes, text_eq, nat_eq, ◌==◌, contains, take, length, if◌then◌else◌,
}
use tidal_syncer.Shared.Map.{Map, lookup, insert, erase}
use tidal_syncer.Shared.Int.{ℤ, pos, negsuc}
use tidal_syncer.Shared.Decimal.{itoa}
use tidal_syncer.Failure.{Error, plain, Result, ok, err, ◌>>=◌, ◌>>◌}
use tidal_syncer.Files.Path.{FilePath, path_eq, clean, join_path, dir, rel, ext, dot_dot}
use tidal_syncer.Namer.Template.{compile, render, join}
use tidal_syncer.Namer.Sanitize.{sanitize}
use tidal_syncer.Config.Types.{Config}
use tidal_syncer.Tidal.Dto.{Track, Album, Playlist}
use tidal_syncer.Sync.Meta.{primary_artist, build_track_meta}
use tidal_syncer.Sync.Ports.{Ports, Stream}
use tidal_syncer.Download.Sweep.{Files, base, part_suffix}

-- `playlistsDirName`, `playlistExt`, `m3uHeader` and `favoritesPlaylistName`
abbrev pub playlists_dir_name : Text
playlists_dir_name = codes "Playlists"

abbrev pub playlist_ext : Text
playlist_ext = codes ".m3u8"

abbrev pub newline : ℕ
newline = 10

abbrev pub m3u_header : Text
m3u_header = codes "#EXTM3U"

abbrev pub favorites_playlist_name : Text
favorites_playlist_name = codes "Favorite Tracks"

-- The answers of the file system during an export. `torn` is what a write that failed has left.
pub record Disk : Type 0 where
  pub mkdir_all : Option Error
  pub write : FilePath → Option Error
  pub torn : FilePath → Option Text
  pub rename : FilePath → Option Error
  pub read_dir : Option Error
  pub remove : FilePath → Option Error

-- `playlistEntry`
pub record Entry : Type 0 where
  pub duration_seconds : ℤ
  pub artist : Text
  pub title : Text
  pub path : Text

-- `%d`
abbrev pub decimal : ℤ → Text
decimal (pos n) = itoa n
decimal (negsuc n) = b'-' ∷ itoa (suc n)

unfoldable pub extinf_line : Entry → Text
extinf_line e =
    codes "#EXTINF:"
    ++ (decimal e.duration_seconds
        ++ b',' ∷ (if e.artist == [] then e.title else e.artist ++ (codes " - " ++ e.title)))

unfoldable pub entry_lines : List Entry → Text
unfolding extinf_line
entry_lines [] = []
entry_lines (e ∷ es) = extinf_line e ++ newline ∷ (e.path ++ newline ∷ entry_lines es)

unfoldable pub m3u8_text : List Entry → Text
unfolding entry_lines
m3u8_text es = m3u_header ++ newline ∷ entry_lines es

-- The path of a string with a suffix behind it.
abbrev suffixed : Bool → Text → List Text → List Text
suffixed rooted s [] = (if rooted then s else b'.' ∷ s) ∷ []
suffixed rooted s (c ∷ cs) = (c ++ s) ∷ cs

unfoldable pub with_suffix : FilePath → Text → FilePath
with_suffix p s = record p { parts = reverse (suffixed p.rooted s (reverse p.parts)) }

abbrev torn_files : FilePath → Option Text → Files → Files
torn_files path none files = files
torn_files path (some bytes) files = insert path bytes files

abbrev pub finalized : FilePath → FilePath → Text → Option Error → Files → Result (Unit {0}) × Files
finalized tmp dest text (some e) files = (err e, files)
finalized tmp dest text none files = (ok tt, insert dest text (erase tmp files))

abbrev pub staged :
    Disk → FilePath → FilePath → Text → Option Error → Files → Result (Unit {0}) × Files
staged disk tmp dest text (some e) files = (err e, torn_files tmp (disk.torn tmp) files)
staged disk tmp dest text none files =
    finalized tmp dest text (disk.rename tmp) (insert tmp text files)

unfoldable pub write_m3u8 : Disk → FilePath → List Entry → Files → Result (Unit {0}) × Files
unfolding m3u8_text with_suffix
write_m3u8 disk dest entries files =
    let tmp = with_suffix dest part_suffix in
    staged disk tmp dest (m3u8_text entries) (disk.write tmp) files

-- What stands in front of the extension of a playlist.
unfoldable pub stem : Text → Text
stem name = take (length name - length playlist_ext) name

-- A file directly below the directory that is an export of no playlist that is kept.
abbrev pub has_parts : FilePath → Bool
has_parts p = elim p.parts [ [] ↦ false | c ∷ cs ↦ true ]

unfoldable pub is_orphan : FilePath → List Text → FilePath → Bool
unfolding stem base dir ext
is_orphan folder kept p =
    has_parts p
    && dir p == folder
    && ext (base p) == playlist_ext
    && not (contains kept (stem (base p)))

unfoldable pub removable : Disk → FilePath → Bool
removable disk p = elim (disk.remove p) [ none ↦ true | some e ↦ false ]

-- The files without those that go.
unfoldable pub remove_all : (FilePath → Bool) → Files → Files
remove_all goes [] = []
remove_all goes ((p, text) ∷ files) =
    let rest = remove_all goes files in if goes p then rest else (p, text) ∷ rest

-- The loop over the entries of the directory, whose order does not matter.
unfoldable pub prune_orphans : Disk → FilePath → List Text → Files → Files
unfolding remove_all is_orphan removable
prune_orphans disk folder kept files = elim disk.read_dir [
  | some e ↦ files
  | none ↦ remove_all (λ p. is_orphan folder kept p && removable disk p) files
]

-- `w.albums`
abbrev pub Albums : Type 0
Albums = Map Text Album

-- `filepath.Rel` as a string.
abbrev pub or_here : List Text → Text
or_here [] = codes "."
or_here (c ∷ cs) = join b'/' (c ∷ cs)

abbrev pub relative_of : Option (List Text) → Result Text
relative_of none = err (plain ∷ [])
relative_of (some parts) = ok (or_here parts)

unfoldable pub relative : FilePath → FilePath → Result Text
unfolding rel join
relative folder dest = relative_of (rel folder dest)

-- The state of an export.
pub record Export : Type 0 where
  pub albums : Albums
  pub files : Files

module _ (nfc : Text → Text) (ports : Ports) (cfg : Config) where
  abbrev remembered : Text → Result Album → Albums → Result Album × Albums
  remembered id (err e) albums = (err e, albums)
  remembered id (ok album) albums = (ok album, insert id album albums)

  abbrev found_or : Option Album → Text → Albums → Result Album × Albums
  found_or (some album) id albums = (ok album, albums)
  found_or none id albums = remembered id (ports.album id) albums

  unfoldable pub album_by_id : ℕ → Albums → Result Album × Albums
  album_by_id album_id albums = let id = itoa album_id in found_or (lookup id albums) id albums

  -- The path of the file of a track, from its album on.
  unfoldable pub path_with : FilePath → Track → Album → Result Text
  unfolding relative
  path_with folder track album = do
    rendered ← render nfc (compile cfg.path_template) (build_track_meta track album)
    relative folder (join_path (clean cfg.paths.music) rendered)

  abbrev track_path_of : FilePath → Track → Result Album × Albums → Result Text × Albums
  track_path_of folder track (err e, albums) = (err e, albums)
  track_path_of folder track (ok album, albums) = (path_with folder track album, albums)

  unfoldable pub track_path : FilePath → Track → Albums → Result Text × Albums
  unfolding path_with album_by_id
  track_path folder track albums = track_path_of folder track (album_by_id track.album.id albums)

  abbrev pub entry_of : Track → Text → Entry
  entry_of track path = record {
    duration_seconds = pos track.duration;
    artist = primary_artist track.artists;
    title = track.title;
    path = path;
  }

  abbrev with_entry : Entry → Result (List Entry) × Albums → Result (List Entry) × Albums
  with_entry entry (err e, albums) = (err e, albums)
  with_entry entry (ok es, albums) = (ok (entry ∷ es), albums)

  abbrev entry_cons :
      Track
      → Result Text × Albums
      → (Albums → Result (List Entry) × Albums)
      → Result (List Entry) × Albums
  entry_cons track (err e, albums) rest = (err e, albums)
  entry_cons track (ok path, albums) rest = with_entry (entry_of track path) (rest albums)

  -- The loop of `entries` over the tracks of a playlist.
  unfoldable pub entries : FilePath → Stream Track → Albums → Result (List Entry) × Albums
  unfolding track_path entry_cons
  entries folder [] albums = (ok [], albums)
  entries folder (err e ∷ stream) albums = (err e, albums)
  entries folder (ok track ∷ stream) albums =
      entry_cons track (track_path folder track albums) (entries folder stream)

  module _ (disk : Disk) (folder : FilePath) where
    abbrev stem_of : Text → Albums → Result (Unit {0}) × Files → Result Text × Export
    stem_of s albums (err e, files) = (err e, record { albums = albums; files = files })
    stem_of s albums (ok u, files) = (ok s, record { albums = albums; files = files })

    abbrev written_one : Playlist → Files → Result (List Entry) × Albums → Result Text × Export
    unfolding write_m3u8
    written_one playlist files (err e, albums) = (err e, record { albums = albums; files = files })
    written_one playlist files (ok es, albums) =
        let s = sanitize nfc playlist.title in
        stem_of s albums (write_m3u8 disk (join_path folder (s ++ playlist_ext)) es files)

    unfoldable pub write_one : Playlist → Export → Result Text × Export
    unfolding entries written_one
    write_one playlist x =
        written_one playlist x.files (entries folder (ports.playlist_tracks playlist.uuid) x.albums)

    abbrev kept_with :
        List Text
        → Result Text × Export
        → (List Text → Export → Result (List Text) × Export)
        → Result (List Text) × Export
    kept_with kept (err e, x) rest = (err e, x)
    kept_with kept (ok s, x) rest = rest (s ∷ kept) x

    -- The loop of `WritePlaylists`: the stems that are kept.
    unfoldable pub write_each : Stream Playlist → List Text → Export → Result (List Text) × Export
    unfolding write_one
    write_each [] kept x = (ok kept, x)
    write_each (err e ∷ stream) kept x = (err e, x)
    write_each (ok playlist ∷ stream) kept x =
        kept_with kept (write_one playlist x) (write_each stream)

    abbrev pruned : Result (List Text) × Export → Result (Unit {0}) × Files
    unfolding prune_orphans
    pruned (err e, x) = (err e, x.files)
    pruned (ok kept, x) = (ok tt, prune_orphans disk folder kept x.files)

  unfoldable pub playlists_dir : FilePath
  playlists_dir = join_path (clean cfg.paths.music) playlists_dir_name

  unfoldable pub write_playlists : Disk → Files → Result (Unit {0}) × Files
  unfolding playlists_dir write_each pruned
  write_playlists disk files = elim disk.mkdir_all [
    | some e ↦ (err e, files)
    | none ↦ pruned disk playlists_dir (
        write_each disk playlists_dir ports.favorite_playlists (favorites_playlist_name ∷ [])
          (record { albums = []; files = files }))
  ]
