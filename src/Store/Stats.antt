-- ===== src/Store/Stats.antt =====
-- internal/store/stats.go: the aggregates of the library, and the facets of the downloaded tracks; and
-- the newest favorites of snapshot.go.
pub mod Sums
use tidal_syncer.Shared.{
  ℕ, suc, ◌+◌, Bool, true, false, not, ◌&&◌, Option, none, some, List, [], ◌∷◌, ◌++◌, Text, codes,
  text_eq, ◌==◌, contains, take, max, length, map, if◌then◌else◌,
}
use tidal_syncer.Shared.Map.{Map, lookup, insert}
use tidal_syncer.Shared.Sort.{sort, text_le}
use tidal_syncer.Tidal.Quality.{Quality, hi_res_lossless, lossless, high, low, other}
use tidal_syncer.Store.Tracks.{Status, pending, done, failed, Track, Tracks}
use tidal_syncer.Store.Snapshot.{SnapshotItem, Snapshots, rows}

-- The text of a status in its column.
abbrev pub status_text : Status → Text
status_text pending = codes "pending"
status_text done = codes "done"
status_text failed = codes "failed"

-- The text of a tier in its column.
abbrev pub quality_text : Quality → Text
quality_text hi_res_lossless = codes "HI_RES_LOSSLESS"
quality_text lossless = codes "LOSSLESS"
quality_text high = codes "HIGH"
quality_text low = codes "LOW"
quality_text (other wire) = wire

abbrev pub or_zero : Option ℕ → ℕ
or_zero none = 0
or_zero (some n) = n

-- SELECT key, count(*) ... GROUP BY key
unfoldable pub group_count : List Text → Map Text ℕ
group_count [] = []
group_count (k ∷ ks) = let m = group_count ks in insert k (suc (or_zero (lookup k m))) m

-- The rows of the table of tracks.
abbrev pub tracks_of : Tracks → List Track
tracks_of db = map (λ row. row.1) db

abbrev pub is_done : Status → Bool
is_done pending = false
is_done done = true
is_done failed = false

abbrev pub is_failed : Status → Bool
is_failed pending = false
is_failed done = false
is_failed failed = true

-- SELECT ... WHERE
unfoldable pub where_rows : (Track → Bool) → List Track → List Track
where_rows test [] = []
where_rows test (tr ∷ trs) = let rest = where_rows test trs in if test tr then tr ∷ rest else rest

-- count(DISTINCT ...)
unfoldable pub distinct : List Text → List Text
distinct [] = []
distinct (x ∷ xs) = let rest = distinct xs in if contains rest x then rest else x ∷ rest

unfoldable pub latest : List Track → ℕ
latest [] = 0
latest (tr ∷ trs) = max tr.updated_at (latest trs)

unfoldable pub snapshot_rows : Snapshots → ℕ
snapshot_rows [] = 0
snapshot_rows ((kind, items) ∷ db) = length items + snapshot_rows db

pub record LibraryCounts : Type 0 where
  pub by_status : Map Text ℕ
  pub by_obtained_quality : Map Text ℕ
  pub favorites : ℕ
  pub permanent_failures : ℕ
  pub distinct_albums : ℕ
  pub last_sync_unix : ℕ

abbrev pub done_tracks : List Track → List Track
done_tracks trs = where_rows (λ tr. is_done tr.status) trs

-- `LibraryCounts`, with the statements all answered; the snapshot has one row for an id of a kind.
unfoldable pub library_counts : Tracks → Snapshots → LibraryCounts
unfolding group_count where_rows distinct latest snapshot_rows
library_counts db snapshots =
    let trs = tracks_of db in
    record {
      by_status = group_count (map (λ tr. status_text tr.status) trs);
      by_obtained_quality =
          group_count (map (λ tr. quality_text tr.obtained_quality) (done_tracks trs));
      favorites = snapshot_rows snapshots;
      permanent_failures = length (where_rows (λ tr. is_failed tr.status && tr.permanent) trs);
      distinct_albums = length (
          distinct (
            map (λ tr. tr.album_id)
              (where_rows (λ tr. is_done tr.status && not (tr.album_id == [])) trs)));
      last_sync_unix = latest trs;
    }

pub record TrackFacet : Type 0 where
  pub genre : Text
  pub path : Text

unfoldable pub done_track_facets : Tracks → List TrackFacet
unfolding where_rows
done_track_facets db =
    map (λ tr. record { genre = tr.genre; path = tr.path }) (done_tracks (tracks_of db))

-- `FavoritesByRecency`
unfoldable pub with_date : List SnapshotItem → List SnapshotItem
with_date [] = []
with_date (item ∷ items) =
    let rest = with_date items in if item.added_at == [] then rest else item ∷ rest

abbrev pub newer : SnapshotItem → SnapshotItem → Bool
newer a b = text_le b.added_at a.added_at

unfoldable pub favorites_by_recency : Text → ℕ → Snapshots → List SnapshotItem
unfolding with_date rows
favorites_by_recency kind limit db = take limit (sort newer (with_date (rows kind db)))
