-- ===== src/Lib.antt =====
-- tidal-syncer keeps a local copy of a TIDAL user's favorites. This library models its core and proves
-- what makes it correct.
--
-- The program. One cycle (`executeSync`, cmd/sync.go) runs the engine once (internal/sync): the engine
-- enumerates the favorite tracks, albums and playlists through the API client (pkg/tidal), downloads each
-- track that the store (internal/store, SQLite) does not hold yet, tags it, and records it. Then the
-- removal deals with the files of tracks that are no longer favorites, and the snapshot of the favorites
-- is replaced. The daemon (cmd/daemon.go) runs cycles for ever, by polling or within a daily window.
--
-- The files.
--   Shared, and below it Map, Sort, Decimal, Int: notation, association lists, sorting, numerals.
--   Failure: Go errors. An error is the chain of sentinels that errors.Is and errors.As find in it.
--   Strconv: `strconv.Atoi`.
--   Tidal/Quality, Tidal/Dto: pkg/tidal/quality.go and dtos.go.
--   Tidal/Client, Tidal/Pages: one request to the API with its errors and its back-off (client.go,
--     errors.go, tracks.go, genre.go and backoff.go of pkg/tidal), and the listings that are fetched page
--     by page (favorites.go and items.go).
--   Store/Tracks, Store/Snapshot, Store/Collection, Store/Rows, Store/Db: internal/store/tracks.go,
--     snapshot.go and collection.go. A table is an association list by its primary key; a statement is a
--     function on it.
--   Store/Open, Store/Migrate, Store/Migrate/Race: internal/store/store.go. A transaction of a migration
--     is done as a whole or rolled back; several processes take turns between a check and a transaction.
--   Store/Stats: internal/store/stats.go, and the newest favorites of snapshot.go. Metrics: the collector
--     of internal/metrics.
--   Tag: the integrity check and the lyrics beside a file, of internal/tag.
--   Manifest, Manifest/Mpd: pkg/tidal/manifest; an int is its two's complement.
--   Namer/Utf8, Namer/Sanitize, Namer/Template: internal/namer. A text is a list of runes or of bytes.
--   Config/Types, Config/Clock, Config/TemplateCheck, Config/Validate: internal/config.
--   Files/Path: what the program uses of path/filepath.
--   Sync/Ports: internal/sync/ports.go, and what else the engine calls, with the answers of one run: a
--     statement of the store fails in the whole run or works in the whole run.
--   Sync/Meta, Sync/PermanentFailure, Sync/AlbumCache, Sync/Process: meta.go, failure.go, cache.go and
--     process.go of internal/sync; `process_track` is `processTrack`.
--   Sync/AlbumCache/Race: cache.go again, in steps that the workers take in any order.
--   Sync/Enumerate: enumerate.go and collection_cache.go; a step writes the desired tracks and the cache,
--     and what it wrote before an error stays.
--   Sync/Engine: engine.go; `sync_once` is `SyncOnce`, and `run_workers` runs the workers one after the
--     other.
--   Sync/Removal: removal.go; the file system is a function from the calls so far to the next answer.
--   Sync/Playlist, Sync/Favorites: playlist.go and favorites.go, on the files of the volume by path.
--   Cycle: `executeSync` of cmd/sync.go up to its exports. Cycle/Export: the whole of it, `runSync` around
--     it, and internal/lock. The engine's and the removal's calls of the file system are not played on the
--     files of the exports; what they leave is an argument.
--   Daemon, Daemon/Window: cmd/daemon.go and cmd/daemon_schedule.go. The location of the clock is a
--     parameter; what is assumed of it, where it is, is that of one without changes of its offset.
--   Download/Band, Download/Stream: `fetchManifest` and the streams of pkg/tidal/download/download.go and
--     dash.go. At most three attempts are made at a URL, as in the code.
--   Download/Sweep, Download/Atomic, Download/Fetch: `SweepStale`, `writeAtomic`, and `Download` as a
--     whole with `demuxDASH`. A panic of `SegmentURLs` is `none`.
--   Auth, Auth/Device: pkg/tidal/auth, internal/authstore and internal/store/tokens.go.
--   Tests: concrete data, and each theorem at one input.
--
-- Termination. A loop of the code goes over a list that it was given, over the characters of a text, or
-- over the components of a path. The loops that do not end by themselves, those of the daemon and of the
-- device login, are functions of the list of their turns, and say whether they have returned. Two have
-- fuel: the loop over the pings, for which 252 rounds are enough, since each takes 20 ms of 5 s, and that
-- over the pages of a listing, for which one page more than there are entries is enough.
--
-- Numbers. Identifiers, sizes and instants are natural numbers; the durations of the configuration are
-- integers. The 64-bit integers wrap round where the program computes on input from outside: the numbers of
-- a DASH document, the versions of migrations, and the seconds of a Retry-After header.
--
-- Not modelled: HTTP, JSON, XML, SQL and the file formats, logging, the Prometheus client, commands, and the
-- interleaving of the workers within one track; Unicode normalisation is a parameter that is assumed to make no clean
-- text unclean.
pub mod Shared
pub mod Failure
pub mod Strconv
pub mod Tidal
pub mod Store
pub mod Namer
pub mod Config
pub mod Files
pub mod Manifest
pub mod Sync
pub mod Cycle
pub mod Metrics
pub mod Tag
pub mod Daemon
pub mod Download
pub mod Auth
pub mod Tests
