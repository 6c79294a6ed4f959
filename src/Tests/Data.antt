-- ===== src/Tests/Data.antt =====
-- A track with its album, a configuration, and what the ports answer when all goes well.
use tidal_syncer.Shared.{true, false, none, [], ◌∷◌, Text, codes}
use tidal_syncer.Shared.Int.{pos}
use tidal_syncer.Failure.{api_error, plain, ok, err}
use tidal_syncer.Tidal.Quality.{lossless, hi_res_lossless}
use tidal_syncer.Tidal.Dto.{Track, Album, Artist}
use tidal_syncer.Config.Types.{Config}
use tidal_syncer.Store.Tracks as Tracks
use tidal_syncer.Store.Tracks.{done}
use tidal_syncer.Store.Snapshot.{SnapshotItem}
use tidal_syncer.Store.Db.{Db}
use tidal_syncer.Sync.Ports.{Ports}
use tidal_syncer.Sync.AlbumCache.{empty_cache}
use tidal_syncer.Sync.Process.{Run}
use tidal_syncer.Sync.Removal.{Os}

abbrev pub artist : Artist
artist = record { id = 1; name = codes "Ana"; type = codes "MAIN" }

abbrev pub song : Track
song = record {
  id = 7;
  title = codes "Song";
  version = [];
  duration = 180;
  track_number = 1;
  volume_number = 1;
  isrc = codes "X";
  copyright = [];
  explicit = false;
  audio_quality = lossless;
  artists = artist ∷ [];
  album = record { id = 3; title = codes "Album"; cover = [] };
}

abbrev pub disc : Album
disc = record {
  id = 3;
  title = codes "Album";
  duration = 180;
  number_of_tracks = 1;
  number_of_volumes = 1;
  release_date = codes "2020-01-01";
  copyright = [];
  upc = [];
  cover = [];
  artists = artist ∷ [];
}

-- Normalisation that leaves a text as it is.
abbrev pub same_text : Text → Text
same_text s = s

abbrev pub config : Config
config = record {
  paths = record { music = codes "/m"; config = codes "/c"; data_dir = codes "/d" };
  path_template = codes "{albumartist}/{album}/{track} - {title}.{ext}";
  scope = record {
    all = false;
    favorites = record { tracks = true; albums = false; playlists = false };
  };
  quality = record { request = hi_res_lossless; floor = lossless };
  lyrics = record { embed = false; sidecar = false };
  removal_policy = codes "mirror";
  daemon = record {
    mode = codes "polling";
    interval = pos 0;
    polling = record { min = pos 60000000000; max = pos 120000000000 };
    time_window = record { start = codes "22:00"; end = codes "6:30"; min = pos 0; max = pos 0 };
  };
  worker_jitter = record { min = pos 0; max = pos 0 };
  concurrency = pos 3;
  tidal_auth = record { client_id = codes "id"; client_secret = codes "secret" };
  log = record { level = codes "info"; format = codes "console" };
  metrics = record { enabled = false; address = codes ":9101" };
}

abbrev pub ports : Ports
ports = record {
  user_id = ok (codes "42");
  favorite_tracks = ok (record { track = song; added_at = codes "2021" }) ∷ [];
  favorite_albums = [];
  favorite_playlists = [];
  album_tracks = λ id. [];
  playlist_tracks = λ id. [];
  album = λ id. ok disc;
  lyrics = λ id. err (plain ∷ []);
  track_genres = λ id. ok [];
  cover = λ id. err (plain ∷ []);
  download = λ id dest. ok lossless;
  mkdir_all = λ path. ok tt;
  integrity_check = λ path. ok tt;
  tag_file = λ path meta cover lyrics. ok tt;
  write_lrc = λ path lrc. ok tt;
  read_genre = λ path. ok [];
  limit = λ id. ok tt;
  jitter = λ id. ok tt;
  context = ok tt;
  fault = λ s. none;
  now = 5;
}

-- The album is gone: TIDAL answers 404.
abbrev pub no_album : Ports
no_album = record ports { album = λ id. err (api_error 404 ∷ []) }

abbrev pub start : Run
start = record { tracks = []; albums = empty_cache; downloaded = 0; skipped = 0; failed = 0 }

abbrev pub old_row : Tracks.Track
old_row = record {
  tidal_id = codes "7";
  isrc = codes "X";
  album_id = codes "3";
  path = codes "/m/Ana/Album/01 - Song.flac";
  obtained_quality = lossless;
  requested_quality = lossless;
  genre = codes "Pop";
  status = done;
  permanent = false;
  updated_at = 1;
}

abbrev pub gone : SnapshotItem
gone = record { tidal_id = codes "9"; name = codes "Gone"; added_at = [] }

abbrev pub gone_row : Tracks.Track
gone_row = record old_row { tidal_id = codes "9"; path = codes "/m/a/9.flac" }

-- One track that is no longer a favorite.
abbrev pub db : Db
db = record {
  tracks = (codes "9", gone_row) ∷ [];
  snapshots = (codes "tracks", gone ∷ []) ∷ [];
  collections = [];
}

-- A system that refuses every call.
abbrev pub refusing : Os
refusing log call = err (plain ∷ [])
