-- ===== src/Sync/Meta.antt =====
-- internal/sync/meta.go: a track and its album as the template's fields and as tags.
use tidal_syncer.Shared.{ℕ, List, [], ◌∷◌, Text, codes, text_eq, nat_eq, ◌==◌, if◌then◌else◌}
use tidal_syncer.Tidal.Dto.{Artist, Track, Album}
use tidal_syncer.Namer.Template.{TrackMeta}

-- The first MAIN artist, or the fallback.
main_artist_or : Text → List Artist → Text
main_artist_or fallback [] = fallback
main_artist_or fallback (a ∷ rest) =
    if a.type == codes "MAIN" then a.name else main_artist_or fallback rest

unfoldable pub primary_artist : List Artist → Text
unfolding main_artist_or
primary_artist [] = []
primary_artist (a ∷ rest) = main_artist_or a.name (a ∷ rest)

-- The part before the first "-", as `strings.Cut` gives it.
unfoldable pub year_from_date : Text → Text
year_from_date [] = []
year_from_date (c ∷ cs) = if c == b'-' then [] else c ∷ year_from_date cs

unfoldable pub build_track_meta : Track → Album → TrackMeta
unfolding primary_artist year_from_date
build_track_meta track album = record {
  album_artist = primary_artist album.artists;
  artist = primary_artist track.artists;
  album = album.title;
  title = track.title;
  track = track.track_number;
  disc = track.volume_number;
  year = year_from_date album.release_date;
  ext = codes "flac";
  isrc = track.isrc;
  disc_count = album.number_of_volumes;
}

-- internal/tag/tag.go: `Meta`
pub record TagMeta : Type 0 where
  pub title : Text
  pub artist : Text
  pub album_artist : Text
  pub album : Text
  pub track_number : ℕ
  pub disc_number : ℕ
  pub date : Text
  pub genre : List Text
  pub isrc : Text
  pub copyright : Text

unfoldable pub build_tag_meta : Track → Album → List Text → TagMeta
unfolding primary_artist
build_tag_meta track album genres = record {
  title = track.title;
  artist = primary_artist track.artists;
  album_artist = primary_artist album.artists;
  album = album.title;
  track_number = track.track_number;
  disc_number = track.volume_number;
  date = album.release_date;
  genre = genres;
  isrc = track.isrc;
  copyright = track.copyright;
}
