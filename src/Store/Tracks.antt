-- ===== src/Store/Tracks.antt =====
-- internal/store/tracks.go: the download state of each track.
use tidal_syncer.Shared.{
  ℕ, Bool, true, false, Option, none, some, List, [], ◌∷◌, Text, text_eq, ◌==◌, not, ◌&&◌,
  if◌then◌else◌,
}
use tidal_syncer.Shared.Map.{Map, lookup, insert}
use tidal_syncer.Failure.{not_found, Result, ok, err}
use tidal_syncer.Tidal.Quality.{Quality, no_quality}

-- The CHECK of the column also admits 'pending', which the program never writes.
pub data Status : Type 0 where
  pending done failed : Status

pub record Track : Type 0 where
  pub tidal_id : Text
  pub isrc : Text
  pub album_id : Text
  pub path : Text
  pub obtained_quality : Quality
  pub requested_quality : Quality
  pub genre : Text
  pub status : Status
  pub permanent : Bool
  pub updated_at : ℕ

abbrev pub Tracks : Type 0
Tracks = Map Text Track

-- The upsert; `now` is `unixepoch()`.
unfoldable pub mark_track : ℕ → Track → Tracks → Tracks
mark_track now tr db = insert tr.tidal_id (record tr { updated_at = now }) db

-- The row that the upsert of `MarkFailed` leaves: the preserved columns come from the old row.
unfoldable pub failed_row : ℕ → Track → Option Track → Track
failed_row now tr none = record {
  tidal_id = tr.tidal_id;
  isrc = tr.isrc;
  album_id = tr.album_id;
  path = [];
  obtained_quality = no_quality;
  requested_quality = tr.requested_quality;
  genre = [];
  status = tr.status;
  permanent = tr.permanent;
  updated_at = now;
}
failed_row now tr (some old) = record old {
  requested_quality = tr.requested_quality;
  status = tr.status;
  permanent = tr.permanent;
  updated_at = now;
}

unfoldable pub mark_failed : ℕ → Track → Tracks → Tracks
unfolding failed_row
mark_failed now tr db = insert tr.tidal_id (failed_row now tr (lookup tr.tidal_id db)) db

unfoldable pub get_track : Text → Tracks → Result Track
get_track id db = elim (lookup id db) [ none ↦ err (not_found ∷ []) | some tr ↦ ok tr ]

pub record GenreGap : Type 0 where
  pub tidal_id : Text
  pub path : Text

abbrev is_done : Status → Bool
is_done done = true
is_done _ = false

-- WHERE status = 'done' AND genre = '' AND path <> ''
unfoldable pub is_gap : Track → Bool
is_gap tr = is_done tr.status && (tr.genre == [] && not (tr.path == []))

unfoldable pub tracks_missing_genre : Tracks → List GenreGap
unfolding is_gap
tracks_missing_genre [] = []
tracks_missing_genre ((id, tr) ∷ db) =
    let rest = tracks_missing_genre db in
    if is_gap tr then record { tidal_id = tr.tidal_id; path = tr.path } ∷ rest else rest

unfoldable pub set_track_genre : Text → Text → Tracks → Tracks
set_track_genre id genre db = elim (lookup id db) [
  | none ↦ db
  | some tr ↦ insert id (record tr { genre = genre }) db
]
