-- ===== src/Tidal/Dto.antt =====
-- pkg/tidal/dtos.go: the records of the API.
use tidal_syncer.Shared.{ℕ, Bool, false, List, [], Text}
use tidal_syncer.Tidal.Quality.{Quality, no_quality}

pub record Artist : Type 0 where
  pub id : ℕ
  pub name : Text
  pub type : Text

pub record AlbumRef : Type 0 where
  pub id : ℕ
  pub title : Text
  pub cover : Text

pub record Track : Type 0 where
  pub id : ℕ
  pub title : Text
  pub version : Text
  pub duration : ℕ
  pub track_number : ℕ
  pub volume_number : ℕ
  pub isrc : Text
  pub copyright : Text
  pub explicit : Bool
  pub audio_quality : Quality
  pub artists : List Artist
  pub album : AlbumRef

-- `tidal.Track{ID: id}`
unfoldable pub stub : ℕ → Track
stub id = record {
  id = id;
  title = [];
  version = [];
  duration = 0;
  track_number = 0;
  volume_number = 0;
  isrc = [];
  copyright = [];
  explicit = false;
  audio_quality = no_quality;
  artists = [];
  album = record { id = 0; title = []; cover = [] };
}

pub record Album : Type 0 where
  pub id : ℕ
  pub title : Text
  pub duration : ℕ
  pub number_of_tracks : ℕ
  pub number_of_volumes : ℕ
  pub release_date : Text
  pub copyright : Text
  pub upc : Text
  pub cover : Text
  pub artists : List Artist

pub record Playlist : Type 0 where
  pub uuid : Text
  pub title : Text
  pub description : Text
  pub number_of_tracks : ℕ
  pub duration : ℕ
  pub last_updated : Text

pub record Lyrics : Type 0 where
  pub plain : Text
  pub lrc : Text

pub record PlaybackInfo : Type 0 where
  pub track_id : ℕ
  pub audio_quality : Quality
  pub manifest_mime_type : Text
  pub manifest : Text

pub record FavoriteTrack : Type 0 where
  pub track : Track
  pub added_at : Text
