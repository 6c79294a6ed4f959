-- ===== src/Tests/Schema.antt =====
-- The migrations, the pages of the API, and a download from the manifest to the file.
use tidal_syncer.Shared.{
  ℕ, zero, suc, ◌+◌, ◌-◌, ◌*◌, ◌^◌, ◌<◌, ◌≤◌, ◌≢◌, ◌⊎◌, inl, inr, Bool, true, false, Option, none,
  some, List, [], ◌∷◌, ◌++◌, map, All, Text, codes, length, get_or, take, drop, arith, ◌≡◌, refl,
  text_eq,
}
use tidal_syncer.Shared.Int.{pos, lt_ℤ}
use tidal_syncer.Store.Rows.{Distinct}
use tidal_syncer.Strconv.{atoi}
use tidal_syncer.Failure.{sqlite_busy, Result, ok}
use tidal_syncer.Files.Path.{FilePath}
use tidal_syncer.Tidal.Quality.{Quality, lossless}
use tidal_syncer.Tidal.Pages.{FavoriteEntry, FavoritesPage, emit_favorites}
use tidal_syncer.Tidal.Pages.Whole.{emit_favorites-IsWhole}
use tidal_syncer.Tidal.Client.{Response, seconds, backoff}
use tidal_syncer.Store.Open.{Pings, busy_timeout, establish_wal}
use tidal_syncer.Store.Open.Wal.{Ends, establish_wal-Ends}
use tidal_syncer.Store.Migrate.{Catalog, File, Faults, migrate}
use tidal_syncer.Store.Migrate.Twice.{IsRecorded, migrate-IsIdempotent}
use tidal_syncer.Store.Migrate.Race.{at_files, run, start}
use tidal_syncer.Store.Migrate.Race.Once.{AreFresh, version, run-IsOnce}
use tidal_syncer.Manifest.{Decoders, mime_dash, mime_bts, parse}
use tidal_syncer.Manifest.Laws.{Answer, parse-Answer}
use tidal_syncer.Manifest.Mpd.{MpdDocument, Dash, number_placeholder, segment_urls, total_segments}
use tidal_syncer.Manifest.Mpd.Segments.{with_numbers, segment_urls-AreDistinct}
use tidal_syncer.Download.Band.{Provider}
use tidal_syncer.Download.Stream.{Http}
use tidal_syncer.Download.Sweep.{Files}
use tidal_syncer.Download.Atomic.{Disk}
use tidal_syncer.Download.Fetch.{Demuxer, download}
use tidal_syncer.Download.Fetch.Whole.{Fetches, download_refines}
use tidal_syncer.Tests.Exports.{no_faults}

abbrev document : MpdDocument
document = record {
  periods =
      record {
        adaptation_sets =
            record {
              mime_type = codes "audio/mp4";
              representations =
                  record {
                    segment_template = record {
                      initialization = codes "i";
                      media = codes "s$Number$";
                      start_number = none;
                      timeline = record { repeat = 1 } ∷ [];
                    };
                  }
                  ∷ [];
            }
            ∷ [];
      }
      ∷ [];
}

abbrev decoders : Decoders
decoders = record {
  base64 = λ s. ok s;
  json = λ s. ok (record {
    mime_type = codes "audio/flac";
    encryption_type = codes "NONE";
    urls = codes "u" ∷ [];
  });
  xml = λ s. ok document;
}

parse-Answer_example : Answer decoders mime_dash [] (parse decoders mime_dash [])
parse-Answer_example = parse-Answer decoders mime_dash []

abbrev dash : ℕ → Dash
dash count = record {
  mime_type = codes "audio/mp4";
  initialization = codes "i";
  media = codes "s" ++ (number_placeholder ++ codes ".mp4");
  start_number = 1;
  segment_count = count;
}

segment_urls-AreDistinct_example :
    (media : List Text) × (segment_urls (dash 2) ≡ some (codes "i" ∷ media))
    × (media ≡ with_numbers (codes "s") (codes ".mp4") 1 2)
    × (length media ≡ 2)
    × Distinct media
unfolding tidal_syncer.Shared.nat_eq
segment_urls-AreDistinct_example =
    segment_urls-AreDistinct (dash 2) (codes "s") (codes ".mp4") refl (refl, tt)
      (refl, (refl, (refl, (refl, tt)))) (omega arith)

-- An entry that is repeated -3 times stands for -2 segments, which passes for a count.
negative_count : total_segments (record { repeat = 2 ^ 64 - 3 } ∷ []) ≡ 2 ^ 64 - 2
unfolding total_segments
negative_count = refl

negative_count_panics : segment_urls (dash (2 ^ 64 - 2)) ≡ none
unfolding segment_urls
negative_count_panics = refl

abbrev provider : Provider
provider = record {
  playback_info = λ q. ok (record { mime_type = mime_bts; manifest = []; granted = lossless });
  context = λ q. none;
}

abbrev http : Http
http = record {
  attempt = λ url k. ok (record { status = 200; body = ok (codes "fLaC") });
  context = λ url k. none;
  context_after = λ url. none;
  write = λ bytes dst. none;
}

abbrev demuxer : Demuxer
demuxer = record {
  ffmpeg_path = [];
  demux = λ s. ok s;
  context = none;
  random = codes "1";
  create = none;
  close = none;
  remove = none;
  partial = [];
}

abbrev disk : Disk
disk = record {
  random = codes "7";
  create = none;
  chmod = none;
  sync = none;
  rename = none;
  remove = none;
  open_dir = none;
  sync_dir = none;
  partial = [];
}

abbrev song_path : FilePath
song_path = record { rooted = true; parts = codes "m" ∷ codes "a.flac" ∷ [] }

abbrev no_files : Files
no_files = []

abbrev stored : Files
stored = (song_path, codes "fLaC") ∷ []

download_refines_example :
    Fetches http demuxer song_path provider lossless lossless decoders no_files
      (download http demuxer song_path provider lossless lossless decoders disk no_files)
unfolding tidal_syncer.Download.Sweep.is_stale tidal_syncer.Shared.nat_eq
download_refines_example =
    download_refines http demuxer song_path provider lossless lossless decoders disk no_files refl

-- The bytes of the demuxer are stored.
download_stores :
    download http demuxer song_path provider lossless lossless decoders disk no_files
    ≡ some (ok lossless, stored)
unfolding tidal_syncer.Shared.nat_eq download tidal_syncer.Tidal.Quality.rank
    tidal_syncer.Shared.text_eq tidal_syncer.Shared.Map.insert tidal_syncer.Shared.Map.erase
    tidal_syncer.Files.Path.path_eq tidal_syncer.Files.Path.dir
download_stores = refl

abbrev file : Text → Text → File
file name ddl = record { name = name; ddl = ddl }

abbrev files : List File
files = file (codes "1_a.sql") (codes "A") ∷ file (codes "2_b.sql") (codes "B") ∷ []

abbrev empty_catalog : Catalog
empty_catalog = record { table = true; versions = []; executed = [] }

abbrev up_to_date : Catalog
up_to_date = record { table = true; versions = 1 ∷ 2 ∷ []; executed = codes "A" ∷ codes "B" ∷ [] }

migrated : migrate no_faults (λ name. no_faults) none files empty_catalog ≡ (ok tt, up_to_date)
unfolding migrate tidal_syncer.Shared.nat_eq
migrated = refl

migrate-IsIdempotent_example :
    All (IsRecorded up_to_date) files
    × ((migrate no_faults (λ name. no_faults) none files up_to_date).1 ≡ up_to_date)
migrate-IsIdempotent_example =
    migrate-IsIdempotent no_faults no_faults (λ name. no_faults) (λ name. no_faults) none none files
      empty_catalog up_to_date migrated

-- Two processes that both find the first version missing.
abbrev schedule : List (ℕ × Faults)
schedule = (0, no_faults) ∷ (1, no_faults) ∷ (0, no_faults) ∷ (1, no_faults) ∷ []

fresh_files : AreFresh [] files
unfolding tidal_syncer.Shared.nat_eq tidal_syncer.Store.Migrate.migration_version
fresh_files = (refl, (refl, tt))

run-IsOnce_example :
    (done : List File) × (todo : List File) × (done ++ todo ≡ files)
    × ((run schedule (start files empty_catalog)).db.versions ≡ map version done)
    × ((run schedule (start files empty_catalog)).db.executed ≡ map (λ f. f.ddl) done)
    × (((run schedule (start files empty_catalog)).pc 0 ≢ at_files []) ⊎ (todo ≡ []))
run-IsOnce_example = run-IsOnce [] files empty_catalog schedule 0 fresh_files refl refl

-- A database that stays busy.
abbrev busy : Pings
busy = record { ping = λ k. some (sqlite_busy ∷ []); now = λ k. 20 * k }

establish_wal-Ends_example :
    (answer : Result (Unit {0})) × (establish_wal busy 0 252 ≡ some answer)
    × Ends busy (0 + busy_timeout) answer
establish_wal-Ends_example = establish_wal-Ends busy 0 (omega arith) (λ j. omega arith)

abbrev entries : List (FavoriteEntry ℕ)
entries = record { item = 7; created = [] } ∷ record { item = 8; created = [] } ∷ []

abbrev server : ℕ → Result (FavoritesPage ℕ)
server o = ok (record { total_number_of_items = pos 2; items = take 1 (drop o entries) })

emit_favorites-IsWhole_example : emit_favorites server 3 0 ≡ some (map ok entries)
emit_favorites-IsWhole_example = emit_favorites-IsWhole server entries 1 (omega arith) (λ o. refl)

abbrev too_many_requests : Text → Response
too_many_requests header = record { status = 429; retry_after = header; body = [] }

seven : atoi (codes "7") ≡ ok 7
unfolding atoi tidal_syncer.Shared.nat_eq
seven = refl

-- A number of seconds that does not fit wraps round to a negative wait.
overflow :
    backoff (λ s. none) (pos 0) (pos 30000000000) (some (too_many_requests (codes "9223372037")))
    ≡ seconds 9223372037
unfolding backoff tidal_syncer.Shared.nat_eq tidal_syncer.Shared.text_eq
overflow = refl

overflow_is_negative : lt_ℤ (seconds 9223372037) (pos 0) ≡ true
overflow_is_negative = refl
