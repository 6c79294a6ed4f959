-- ===== src/Metrics.antt =====
-- internal/metrics/collector.go: what a scrape reports of the library. A gauge is its name, its label
-- and its value.
pub mod Artist
use tidal_syncer.Shared.{
  ℕ, suc, Bool, true, false, not, ◌||◌, Option, none, some, List, [], ◌∷◌, ◌++◌, Text, codes,
  text_eq, nat_eq, ◌==◌, contains, drop, length, map, if◌then◌else◌,
}
use tidal_syncer.Shared.Map.{Map, lookup, insert}
use tidal_syncer.Failure.{Error, Result, ok, err}
use tidal_syncer.Manifest.Mpd.{has_prefix}
use tidal_syncer.Namer.Template.{split}
use tidal_syncer.Tidal.Client.{trim_right}
use tidal_syncer.Store.Stats.{LibraryCounts, TrackFacet, group_count, distinct}

pub data Gauge : Type 0 where
  tracks by_quality by_genre : Text → ℕ → Gauge
  favorites permanent albums artists last_update scrape_error : ℕ → Gauge

-- `strings.TrimPrefix`
unfoldable pub trim_prefix : Text → Text → Text
unfolding has_prefix
trim_prefix s prefix = if has_prefix prefix s then drop (length prefix) s else s

-- What `strings.Cut` finds on either side of the first '/', if there is one.
abbrev cons_cut : ℕ → Option (Text × Text) → Option (Text × Text)
cons_cut c none = none
cons_cut c (some (first, rest)) = some (c ∷ first, rest)

unfoldable pub cut : Text → Option (Text × Text)
cut [] = none
cut (c ∷ s) = let found = cut s in if c == b'/' then some ([], s) else cons_cut c found

abbrev pub first_of : Option (Text × Text) → Text
first_of none = []
first_of (some (first, rest)) = if first == [] || rest == [] then [] else first

unfoldable pub album_artist : Text → Text → Text
unfolding trim_prefix cut trim_right
album_artist path music_root =
    let below = trim_prefix path (trim_right music_root ++ b'/' ∷ []) in
    if below == path then [] else first_of (cut (trim_prefix below (b'/' ∷ [])))

-- `strings.TrimSpace`, for the white space of ASCII.
abbrev is_space : ℕ → Bool
is_space c = c == 32 || c == 9 || c == 10 || c == 11 || c == 12 || c == 13

unfoldable pub trim_left_space : Text → Text
trim_left_space [] = []
trim_left_space (c ∷ s) = let rest = trim_left_space s in if is_space c then rest else c ∷ s

abbrev kept_behind : ℕ → Text → Text
kept_behind c [] = if is_space c then [] else c ∷ []
kept_behind c (d ∷ s) = c ∷ d ∷ s

unfoldable pub trim_right_space : Text → Text
trim_right_space [] = []
trim_right_space (c ∷ s) = kept_behind c (trim_right_space s)

abbrev pub trim_space : Text → Text
unfolding trim_left_space trim_right_space
trim_space s = trim_right_space (trim_left_space s)

-- The genres of a column that joins them with semicolons.
unfoldable pub named : List Text → List Text
unfolding trim_space
named [] = []
named (g ∷ gs) = let rest = named gs in if trim_space g == [] then rest else trim_space g ∷ rest

unfoldable pub genres_of : List TrackFacet → List Text
unfolding named split
genres_of [] = []
genres_of (f ∷ fs) = named (split b';' f.genre) ++ genres_of fs

unfoldable pub artists_of : Text → List TrackFacet → List Text
unfolding album_artist
artists_of music_root [] = []
artists_of music_root (f ∷ fs) =
    let a = album_artist f.path music_root in
    let rest = artists_of music_root fs in if a == [] then rest else a ∷ rest

abbrev gauges : (Text → ℕ → Gauge) → Map Text ℕ → List Gauge
gauges gauge m = map (λ row. gauge row.0 row.1) m

unfoldable pub collect_facets : Text → List TrackFacet → List Gauge
unfolding genres_of artists_of group_count distinct
collect_facets music_root facets =
    gauges by_genre (group_count (genres_of facets))
    ++ artists (length (distinct (artists_of music_root facets))) ∷ []

abbrev or_unknown : Text → Text
or_unknown quality = if quality == [] then codes "unknown" else quality

unfoldable pub collect_counts : LibraryCounts → List Gauge
collect_counts counts =
    gauges tracks counts.by_status
    ++ (gauges (λ quality n. by_quality (or_unknown quality) n) counts.by_obtained_quality
        ++ favorites counts.favorites
          ∷ permanent counts.permanent_failures
          ∷ albums counts.distinct_albums
          ∷ last_update counts.last_sync_unix
          ∷ [])

-- One scrape: the answers of the store to its two queries.
unfoldable pub collect : Text → Result LibraryCounts → Result (List TrackFacet) → List Gauge
unfolding collect_counts collect_facets
collect music_root (err e) facets = scrape_error 1 ∷ []
collect music_root (ok counts) (err e) = scrape_error 1 ∷ []
collect music_root (ok counts) (ok facets) =
    scrape_error 0 ∷ (collect_counts counts ++ collect_facets music_root facets)
