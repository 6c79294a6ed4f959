-- ===== src/Sync/Process.antt =====
-- internal/sync/process.go: the pipeline of one track. The files that it writes are the calls of the
-- ports; its own state is the table of tracks, the album cache and the counters.
pub mod Outcome
pub mod Skip
use tidal_syncer.Shared.{
  ℕ, ◌+◌, Bool, true, false, not, ◌&&◌, ◌||◌, Option, none, some, List, [], ◌∷◌, Text, codes,
  text_eq, nat_eq, ◌==◌, leb, if◌then◌else◌,
}
use tidal_syncer.Shared.Decimal.{itoa}
use tidal_syncer.Failure.{
  Error, not_found, canceled, deadline_exceeded, is, Result, ok, err, ◌>>=◌, ◌>>◌,
}
use tidal_syncer.Tidal.Quality.{Quality, no_quality, rank}
use tidal_syncer.Tidal.Dto.{Track, Album, Lyrics}
use tidal_syncer.Files.Path.{clean, to_text, join_path, dir}
use tidal_syncer.Namer.Template.{compile, render, join}
use tidal_syncer.Config.Types.{Config}
use tidal_syncer.Store.Tracks as Tracks
use tidal_syncer.Store.Tracks.{Tracks, pending, done, failed, get_track, mark_track, mark_failed}
use tidal_syncer.Sync.Meta.{build_track_meta, build_tag_meta}
use tidal_syncer.Sync.PermanentFailure.{permanent_failure}
use tidal_syncer.Sync.Ports.{Ports, Statement, select_track, upsert_track, upsert_failed}
use tidal_syncer.Sync.AlbumCache.{AlbumCache, AlbumEntry, load}

pub record Run : Type 0 where
  pub tracks : Tracks
  pub albums : AlbumCache
  pub downloaded : ℕ
  pub skipped : ℕ
  pub failed : ℕ

-- A statement answers, or fails with the error that the run has for it.
unfoldable pub query {ℓ} : {A : Type ℓ} → Option Error → Result A → Result A
query none r = r
query (some e) r = err e

-- `skipPermanentFailure`
unfoldable pub skip_permanent_failure : Bool → Quality → Tracks.Track → Bool
skip_permanent_failure retry_failed request row =
    if retry_failed
    then false
    else if not row.permanent
    then false
    else leb (rank request) (rank row.requested_quality)

abbrev skip_status : Bool → Quality → Tracks.Track → Tracks.Status → Bool
skip_status retry_failed request row failed = skip_permanent_failure retry_failed request row
skip_status retry_failed request row done = leb (rank request) (rank row.requested_quality)
skip_status retry_failed request row pending = false

-- The decision of `shouldSkip` on a record that was found.
unfoldable pub skip_row : Bool → Quality → Tracks.Track → Bool
unfolding skip_permanent_failure
skip_row retry_failed request row = skip_status retry_failed request row row.status

abbrev skip_answer : Bool → Quality → Result Tracks.Track → Result Bool
skip_answer retry_failed request (ok row) = ok (skip_row retry_failed request row)
skip_answer retry_failed request (err e) = if is e not_found then ok false else err e

-- Best effort: no cover, lyrics or genres where the fetch fails.
abbrev or_empty : Result Text → Text
or_empty (ok s) = s
or_empty (err e) = []

abbrev no_lyrics : Lyrics
no_lyrics = record { plain = []; lrc = [] }

abbrev or_no_lyrics : Result Lyrics → Lyrics
or_no_lyrics (ok l) = l
or_no_lyrics (err e) = no_lyrics

abbrev or_no_genres : Result (List Text) → List Text
or_no_genres (ok gs) = gs
or_no_genres (err e) = []

unfoldable pub is_cancellation : Error → Bool
is_cancellation cause = is cause canceled || is cause deadline_exceeded

abbrev unless_fault : Option Error → Tracks → Tracks → Tracks
unless_fault none old new = new
unless_fault (some e) old new = old

module _ (nfc : Text → Text) (ports : Ports) (cfg : Config) (retry_failed : Bool) where
  unfoldable pub should_skip : ℕ → Tracks → Result Bool
  unfolding query
  should_skip id db =
      skip_answer retry_failed cfg.quality.request
        (query (ports.fault select_track) (get_track (itoa id) db))

  unfoldable pub fetch_cover : Album → Text
  fetch_cover album = if album.cover == [] then [] else or_empty (ports.cover album.cover)

  unfoldable pub fetch_lyrics : Track → Lyrics
  fetch_lyrics track =
      if not cfg.lyrics.embed && not cfg.lyrics.sidecar
      then no_lyrics
      else or_no_lyrics (ports.lyrics (itoa track.id))

  unfoldable pub fetch_genres : Track → List Text
  fetch_genres track = or_no_genres (ports.track_genres (itoa track.id))

  abbrev with_cover : Result Album → AlbumEntry
  with_cover (ok album) = ok (album, fetch_cover album)
  with_cover (err e) = err e

  unfoldable pub resolve_album : Track → AlbumCache → AlbumEntry × AlbumCache
  unfolding fetch_cover
  resolve_album track cache =
      let id = itoa track.album.id in load id (with_cover (ports.album id)) cache

  unfoldable pub write_tags : Text → Track → Album → Text → Lyrics → List Text → Result (Unit {0})
  write_tags dest track album cover lyrics genres = do
    ports.tag_file dest (build_tag_meta track album genres) cover
        (if cfg.lyrics.embed then lyrics.plain else [])
    if cfg.lyrics.sidecar && not (lyrics.lrc == []) then ports.write_lrc dest lyrics.lrc else ok tt

  unfoldable pub done_row : Track → Text → Quality → List Text → Tracks.Track
  done_row track dest quality genres = record {
    tidal_id = itoa track.id;
    isrc = track.isrc;
    album_id = itoa track.album.id;
    path = dest;
    obtained_quality = quality;
    requested_quality = cfg.quality.request;
    genre = join b';' genres;
    status = done;
    permanent = false;
    updated_at = 0;
  }

  -- `downloadOne` from the album on, up to the record for the store: the file with its tags, and
  -- then its row.
  unfoldable pub fetch_file : Track → Album → Text → Result (Text × Quality)
  unfolding write_tags fetch_lyrics fetch_genres
  fetch_file track album cover = do
    rel ← render nfc (compile cfg.path_template) (build_track_meta track album)
    let path = join_path (clean cfg.paths.music) rel
    let dest = to_text path
    ports.mkdir_all (to_text (dir path))
    quality ← ports.download (itoa track.id) dest
    ports.integrity_check dest
    write_tags dest track album cover (fetch_lyrics track) (fetch_genres track)
    ok (dest, quality)

  unfoldable pub fetch_track : Track → Album → Text → Result Tracks.Track
  unfolding fetch_file done_row fetch_genres
  fetch_track track album cover = do
    file ← fetch_file track album cover
    ok (done_row track file.0 file.1 (fetch_genres track))

  abbrev fetch_with : Track → AlbumEntry → Result Tracks.Track
  fetch_with track (ok (album, cover)) = fetch_track track album cover
  fetch_with track (err e) = err e

  unfoldable pub failed_record : Track → Error → Tracks.Track
  failed_record track cause = record {
    tidal_id = itoa track.id;
    isrc = track.isrc;
    album_id = itoa track.album.id;
    path = [];
    obtained_quality = no_quality;
    requested_quality = cfg.quality.request;
    genre = [];
    status = failed;
    permanent = permanent_failure cause;
    updated_at = 0;
  }

  -- `markFailed`: a store error is logged and dropped.
  unfoldable pub record_failure : Track → Error → Run → Run
  unfolding failed_record
  record_failure track cause r = if is_cancellation cause then r else record r {
    failed = r.failed + 1;
    tracks =
        unless_fault (ports.fault upsert_failed) r.tracks
          (mark_failed ports.now (failed_record track cause) r.tracks);
  }

  abbrev record_done : Track → Option Error → Tracks.Track → Run → Run
  record_done track none row r = record r {
    downloaded = r.downloaded + 1;
    tracks = mark_track ports.now row r.tracks;
  }
  record_done track (some e) row r = record_failure track e r

  abbrev finish_track : Track → Result Tracks.Track → Run → Run
  finish_track track (ok row) r = record_done track (ports.fault upsert_track) row r
  finish_track track (err e) r = record_failure track e r

  -- `downloadOne` and what `processTrack` does with its result.
  unfoldable pub download_track : Track → Run → Run
  unfolding resolve_album fetch_track record_failure
  download_track track r =
      let (entry, albums) = resolve_album track r.albums in
      finish_track track (fetch_with track entry) (record r { albums = albums })

  unfoldable pub process_answer : Track → Result Bool → Run → Run
  unfolding download_track
  process_answer track (ok true) r = record r { skipped = r.skipped + 1 }
  process_answer track (ok false) r = download_track track r
  process_answer track (err e) r = record_failure track e r

  unfoldable pub process_track : Track → Run → Run
  unfolding should_skip process_answer
  process_track track r = process_answer track (should_skip track.id r.tracks) r
