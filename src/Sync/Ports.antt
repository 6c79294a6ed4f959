-- ===== src/Sync/Ports.antt =====
-- internal/sync/ports.go, and what the engine calls of other packages and of the system: each call
-- has the answer that it gets during one run.
use tidal_syncer.Shared.{ℕ, Option, List, Text}
use tidal_syncer.Failure.{Error, Result}
use tidal_syncer.Tidal.Quality.{Quality}
use tidal_syncer.Tidal.Dto.{Track, Album, Playlist, Lyrics, FavoriteTrack}
use tidal_syncer.Sync.Meta.{TagMeta}

-- An `iter.Seq2[A, error]`: the pairs in order, a value or an error each.
abbrev pub Stream : Type 0 → Type 0
Stream A = List (Result A)

-- The statements of the store that can fail.
pub data Statement : Type 0 where
  select_track upsert_track upsert_failed select_gaps update_genre : Statement
  select_collection replace_collection prune : Statement
  select_snapshot replace_rows : Statement

pub record Ports : Type 0 where
  pub user_id : Result Text
  pub favorite_tracks : Stream FavoriteTrack
  pub favorite_albums : Stream Album
  pub favorite_playlists : Stream Playlist
  pub album_tracks : Text → Stream Track
  pub playlist_tracks : Text → Stream Track
  pub album : Text → Result Album
  pub lyrics : Text → Result Lyrics
  pub track_genres : Text → Result (List Text)
  pub cover : Text → Result Text
  -- The downloader gets the track id and the destination.
  pub download : Text → Text → Result Quality
  pub mkdir_all : Text → Result (Unit {0})
  pub integrity_check : Text → Result (Unit {0})
  pub tag_file : Text → TagMeta → Text → Text → Result (Unit {0})
  pub write_lrc : Text → Text → Result (Unit {0})
  pub read_genre : Text → Result (List Text)
  -- The rate limiter and the jitter before a track, and the context after the workers.
  pub limit : ℕ → Result (Unit {0})
  pub jitter : ℕ → Result (Unit {0})
  pub context : Result (Unit {0})
  -- The error of a statement that fails, and the time of those that write.
  pub fault : Statement → Option Error
  pub now : ℕ
