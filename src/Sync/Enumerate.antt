-- ===== src/Sync/Enumerate.antt =====
-- internal/sync/enumerate.go and collection_cache.go: the desired tracks of the configured scope.
pub mod Keyed
pub mod Order
pub mod Cache
use tidal_syncer.Shared.{
  ℕ, Bool, true, false, not, ◌&&◌, ◌||◌, Option, none, some, List, [], ◌∷◌, ◌++◌, map, Text, codes,
  text_eq, nat_eq, ◌==◌, leb, if◌then◌else◌,
}
use tidal_syncer.Shared.Map.{Map, lookup, insert}
use tidal_syncer.Shared.Sort.{sort}
use tidal_syncer.Shared.Decimal.{itoa}
use tidal_syncer.Failure.{Error, Result, ok, err, ◌>>=◌}
use tidal_syncer.Tidal.Dto.{Track, Album, Playlist, FavoriteTrack, stub}
use tidal_syncer.Config.Types.{Config}
use tidal_syncer.Store.Tracks.{Tracks}
use tidal_syncer.Store.Collection.{
  CollectionKind, CollectionKey, album, playlist, CollectionCache, Collections, get_collection,
  put_collection, prune_collections,
}
use tidal_syncer.Sync.Ports.{Ports, Stream, select_collection, replace_collection, prune}
use tidal_syncer.Sync.Process.{query, should_skip}

-- What enumeration writes: the desired tracks by id, the favorite-add dates, and the cache.
pub record Desired : Type 0 where
  pub dst : Map ℕ Track
  pub dates : Map ℕ Text
  pub collections : Collections

-- An error stops the enumeration; what was written stays written.
abbrev pub Step : Type 0
Step = Desired → Result (Unit {0}) × Desired

after : (Result (Unit {0}) × Desired) → Step → Result (Unit {0}) × Desired
after (ok u, d) k = k d
after (err e, d) k = (err e, d)

infixl 5 ◌then_step◌
unfoldable pub ◌then_step◌ : Step → Step → Step
unfolding after
◌then_step◌ m k d = after (m d) k

unfoldable pub when : Bool → Step → Step
when true m = m
when false m = λ d. (ok tt, d)

unfoldable pub collect_favorite_tracks : Stream FavoriteTrack → Step
collect_favorite_tracks [] d = (ok tt, d)
collect_favorite_tracks (err e ∷ seq) d = (err e, d)
collect_favorite_tracks (ok fav ∷ seq) d = collect_favorite_tracks seq (record d {
  dst = insert fav.track.id fav.track d.dst;
  dates = insert fav.track.id fav.added_at d.dates;
})

pub record CachedCollection : Type 0 where
  pub key : CollectionKey
  pub version : Text
  pub immutable : Bool
  pub fetch : Stream Track

abbrev valid_entry : CachedCollection → CollectionCache → Bool
valid_entry c cached =
    if c.immutable then true else not (c.version == []) && c.version == cached.version

unfoldable pub valid : CachedCollection → Option CollectionCache → Bool
valid c none = false
valid c (some cached) = valid_entry c cached

-- A stub never overwrites a track that is there.
unfoldable pub emit_stubs : Map ℕ Track → List ℕ → Map ℕ Track
emit_stubs dst [] = dst
emit_stubs dst (id ∷ ids) =
    emit_stubs (elim (lookup id dst) [ some t ↦ dst | none ↦ insert id (stub id) dst ]) ids

-- The ids in listing order, and the tracks over whatever was there.
unfoldable pub fetch_collection_tracks :
    Stream Track → List ℕ → Map ℕ Track → Result (List ℕ) × Map ℕ Track
fetch_collection_tracks [] got dst = (ok got, dst)
fetch_collection_tracks (err e ∷ seq) got dst = (err e, dst)
fetch_collection_tracks (ok track ∷ seq) got dst =
    fetch_collection_tracks seq (got ++ track.id ∷ []) (insert track.id track dst)

-- What is left after the store took, or refused, the new cache.
stored : Map ℕ Track → Desired → Result Collections → Result (Unit {0}) × Desired
stored dst d (err e) = (err e, record d { dst = dst })
stored dst d (ok db) = (ok tt, record d { dst = dst; collections = db })

module _ (nfc : Text → Text) (ports : Ports) (cfg : Config) (retry_failed : Bool)
    (tracks : Tracks) where
  is_skip : Result Bool → Bool
  is_skip (ok b) = b
  is_skip (err e) = false

  unfoldable pub all_settled : List ℕ → Bool
  unfolding is_skip
  all_settled [] = true
  all_settled (id ∷ ids) =
      let rest = all_settled ids in
      if is_skip (should_skip nfc ports cfg retry_failed id tracks) then rest else false

  store_fetched : CachedCollection → Result (List ℕ) × Map ℕ Track → Step
  unfolding stored
  store_fetched c (err e, dst) d = (err e, record d { dst = dst })
  store_fetched c (ok got, dst) d =
      stored dst d
        (query (ports.fault replace_collection) (put_collection c.key c.version got d.collections))

  expand_found : CachedCollection → Result (Option CollectionCache) → Step
  unfolding store_fetched
  expand_found c (err e) d = (err e, d)
  expand_found c (ok none) d = store_fetched c (fetch_collection_tracks c.fetch [] d.dst) d
  expand_found c (ok (some cached)) d =
      if valid c (some cached) && all_settled cached.track_ids
      then (ok tt, record d { dst = emit_stubs d.dst cached.track_ids })
      else store_fetched c (fetch_collection_tracks c.fetch [] d.dst) d

  unfoldable pub expand_collection : CachedCollection → Step
  unfolding expand_found query
  expand_collection c d =
      expand_found c
        (query (ports.fault select_collection) (ok (get_collection c.key d.collections))) d

  prune_step : CollectionKind → List Text → Step
  prune_step kind seen d = elim (ports.fault prune) [
    | some e ↦ (err e, d)
    | none ↦ (ok tt, record d { collections = prune_collections kind seen d.collections })
  ]

  unfoldable pub album_collection : Album → CachedCollection
  album_collection a = record {
    key = record { kind = album; id = itoa a.id };
    version = [];
    immutable = true;
    fetch = ports.album_tracks (itoa a.id);
  }

  unfoldable pub playlist_collection : Playlist → CachedCollection
  playlist_collection p = record {
    key = record { kind = playlist; id = p.uuid };
    version = p.last_updated;
    immutable = false;
    fetch = ports.playlist_tracks p.uuid;
  }

  -- The loops of `expandAlbums` and `expandPlaylists`, with the ids that were seen.
  unfoldable pub expand_albums : List Text → Stream Album → Step
  unfolding expand_collection album_collection prune_step ◌then_step◌
  expand_albums seen [] = prune_step album seen
  expand_albums seen (err e ∷ seq) = λ d. (err e, d)
  expand_albums seen (ok a ∷ seq) =
      expand_collection (album_collection a) then_step expand_albums (seen ++ itoa a.id ∷ []) seq

  unfoldable pub expand_playlists : List Text → Stream Playlist → Step
  unfolding expand_collection playlist_collection prune_step ◌then_step◌
  expand_playlists seen [] = prune_step playlist seen
  expand_playlists seen (err e ∷ seq) = λ d. (err e, d)
  expand_playlists seen (ok p ∷ seq) =
      expand_collection (playlist_collection p) then_step expand_playlists (seen ++ p.uuid ∷ []) seq

  unfoldable pub enumerate_into : Step
  unfolding ◌then_step◌ when
  enumerate_into =
      let favorites = collect_favorite_tracks ports.favorite_tracks in
      let albums = expand_albums [] ports.favorite_albums in
      let playlists = expand_playlists [] ports.favorite_playlists in
      if cfg.scope.all
      then favorites then_step albums then_step playlists
      else when cfg.scope.favorites.tracks favorites
        then_step when cfg.scope.favorites.albums albums
        then_step when cfg.scope.favorites.playlists playlists

abbrev pub value_of : ℕ × Track → Track
value_of (id, track) = track

abbrev pub by_id : Track → Track → Bool
by_id a b = leb a.id b.id

unfoldable pub sorted_tracks : Map ℕ Track → List Track
sorted_tracks m = sort by_id (map value_of m)

answer : Result (Unit {0}) → Desired → Result (List Track × Map ℕ Text)
unfolding sorted_tracks
answer (err e) d = err e
answer (ok u) d = ok (sorted_tracks d.dst, d.dates)

unfoldable pub enumerate :
    (Text → Text)
    → Ports
    → Config
    → Bool
    → Tracks
    → Collections
    → Result (List Track × Map ℕ Text) × Collections
unfolding enumerate_into answer
enumerate nfc ports cfg retry_failed tracks collections =
    let (r, d) =
      enumerate_into nfc ports cfg retry_failed tracks
        (record { dst = []; dates = []; collections = collections }) in
    (answer r d, d.collections)
