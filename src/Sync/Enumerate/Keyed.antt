-- ===== src/Sync/Enumerate/Keyed.antt =====
-- The desired tracks stand under their ids, each once, whatever enumeration writes.
use tidal_syncer.Shared.{
  ℕ, ◌≡◌, refl, Bool, true, false, ◌||◌, ◌&&◌, Bool-cases, Option-cases, inl, inr, Option, none,
  some, List, [], ◌∷◌, ◌++◌, Text, nat_eq, ◌==◌, contains, if◌then◌else◌, arith,
}
use tidal_syncer.Shared.Map.{Map, keys, lookup, insert}
use tidal_syncer.Shared.Decimal.{itoa}
use tidal_syncer.Failure.{Error, Result, ok, err}
use tidal_syncer.Tidal.Dto.{Track, Album, Playlist, FavoriteTrack, stub}
use tidal_syncer.Config.Types.{Config}
use tidal_syncer.Store.Tracks.{Tracks}
use tidal_syncer.Store.Collection.{CollectionKind, CollectionCache, Collections, album, playlist}
use tidal_syncer.Sync.Ports.{Ports, Stream, prune}
use tidal_syncer.Sync.Enumerate.{
  Desired, Step, after, ◌then_step◌, when, collect_favorite_tracks, CachedCollection, valid,
  emit_stubs, fetch_collection_tracks, all_settled, stored, store_fetched, expand_found,
  expand_collection, prune_step, expand_albums, expand_playlists, enumerate_into,
}

-- Every track stands under its own id, and no id twice.
abbrev pub IsKeyed : Map ℕ Track → Type 0
IsKeyed [] = Unit
IsKeyed ((k, t) ∷ m) = (t.id ≡ k) × (contains (keys m) k ≡ false) × IsKeyed m

contains-keys-insert :
    (k j : ℕ) (t : Track) (m : Map ℕ Track)
    → contains (keys (insert k t m)) j ≡ (contains (keys m) j || j == k)
unfolding keys insert
contains-keys-insert k j t [] = ground arith
contains-keys-insert k j t ((i, u) ∷ m) = ground (arith, contains-keys-insert k j t m)

insert-IsKeyed :
    (k : ℕ) (t : Track) (m : Map ℕ Track) → t.id ≡ k → IsKeyed m → IsKeyed (insert k t m)
unfolding insert keys
insert-IsKeyed k t [] e h = (e, refl, tt)
insert-IsKeyed k t ((i, u) ∷ m) e h =
    ground (arith, contains-keys-insert k i t m, insert-IsKeyed k t m e h.2)

emit_stubs-IsKeyed : (dst : Map ℕ Track) (ids : List ℕ) → IsKeyed dst → IsKeyed (emit_stubs dst ids)
unfolding emit_stubs stub
emit_stubs-IsKeyed dst [] h = h
emit_stubs-IsKeyed dst (id ∷ ids) h = elim (Option-cases (lookup id dst)) [
  | inl e ↦
      rw e
        (emit_stubs-IsKeyed (insert id (stub id) dst) ids (insert-IsKeyed id (stub id) dst refl h))
  | inr (t, e) ↦ rw e (emit_stubs-IsKeyed dst ids h)
]

fetch_collection_tracks-IsKeyed :
    (seq : Stream Track) (got : List ℕ) (dst : Map ℕ Track)
    → IsKeyed dst
    → IsKeyed (fetch_collection_tracks seq got dst).1
unfolding fetch_collection_tracks
fetch_collection_tracks-IsKeyed [] got dst h = h
fetch_collection_tracks-IsKeyed (err e ∷ seq) got dst h = h
fetch_collection_tracks-IsKeyed (ok t ∷ seq) got dst h =
    fetch_collection_tracks-IsKeyed seq _ _ (insert-IsKeyed t.id t dst refl h)

-- A step that keeps the desired tracks keyed.
pub record KeepsKeyed (m : Step) : Type 0 where
  pub at : (d : Desired) → IsKeyed d.dst → IsKeyed (m d).1.dst

after-IsKeyed :
    (r : Result (Unit {0}) × Desired) (k : Step)
    → IsKeyed r.1.dst
    → KeepsKeyed k
    → IsKeyed (after r k).1.dst
unfolding after
after-IsKeyed (ok u, d) k h p = p.at d h
after-IsKeyed (err e, d) k h p = h

then_step-KeepsKeyed : (m k : Step) → KeepsKeyed m → KeepsKeyed k → KeepsKeyed (m then_step k)
unfolding ◌then_step◌
then_step-KeepsKeyed m k p q = record { at = λ d h. after-IsKeyed (m d) k (p.at d h) q }

stop-KeepsKeyed : (e : Error) → KeepsKeyed (λ d. (err e, d))
stop-KeepsKeyed e = record { at = λ d h. h }

when-KeepsKeyed : (b : Bool) (m : Step) → KeepsKeyed m → KeepsKeyed (when b m)
unfolding when
when-KeepsKeyed true m p = p
when-KeepsKeyed false m p = record { at = λ d h. h }

if-KeepsKeyed :
    (b : Bool) (m k : Step) → KeepsKeyed m → KeepsKeyed k → KeepsKeyed (if b then m else k)
if-KeepsKeyed true m k p q = p
if-KeepsKeyed false m k p q = q

collect_favorite_tracks-IsKeyed :
    (seq : Stream FavoriteTrack) (d : Desired)
    → IsKeyed d.dst
    → IsKeyed (collect_favorite_tracks seq d).1.dst
unfolding collect_favorite_tracks
collect_favorite_tracks-IsKeyed [] d h = h
collect_favorite_tracks-IsKeyed (err e ∷ seq) d h = h
collect_favorite_tracks-IsKeyed (ok fav ∷ seq) d h =
    collect_favorite_tracks-IsKeyed seq _ (insert-IsKeyed fav.track.id fav.track d.dst refl h)

stored-IsKeyed :
    (dst : Map ℕ Track) (d : Desired) (r : Result Collections)
    → IsKeyed dst
    → IsKeyed (stored dst d r).1.dst
unfolding stored
stored-IsKeyed dst d (err e) h = h
stored-IsKeyed dst d (ok db) h = h

module _ (nfc : Text → Text) (ports : Ports) (cfg : Config) (retry_failed : Bool)
    (tracks : Tracks) where
  store_fetched-IsKeyed :
      (c : CachedCollection) (f : Result (List ℕ) × Map ℕ Track) (d : Desired)
      → IsKeyed f.1
      → IsKeyed (store_fetched nfc ports cfg retry_failed tracks c f d).1.dst
  unfolding store_fetched
  store_fetched-IsKeyed c (err e, dst) d h = h
  store_fetched-IsKeyed c (ok got, dst) d h = stored-IsKeyed dst d _ h

  expand_found-IsKeyed :
      (c : CachedCollection) (r : Result (Option CollectionCache)) (d : Desired)
      → IsKeyed d.dst
      → IsKeyed (expand_found nfc ports cfg retry_failed tracks c r d).1.dst
  unfolding expand_found
  expand_found-IsKeyed c (err e) d h = h
  expand_found-IsKeyed c (ok none) d h =
      store_fetched-IsKeyed c _ d (fetch_collection_tracks-IsKeyed c.fetch [] d.dst h)
  expand_found-IsKeyed c (ok (some cached)) d h =
      elim (Bool-cases
        (valid c (some cached) && all_settled nfc ports cfg retry_failed tracks cached.track_ids)) [
          | inl e ↦ rw e (emit_stubs-IsKeyed d.dst cached.track_ids h)
          | inr e ↦
              rw e
                (store_fetched-IsKeyed c _ d (fetch_collection_tracks-IsKeyed c.fetch [] d.dst h))
        ]

  expand_collection-KeepsKeyed :
      (c : CachedCollection) → KeepsKeyed (expand_collection nfc ports cfg retry_failed tracks c)
  unfolding expand_collection
  expand_collection-KeepsKeyed c = record { at = λ d h. expand_found-IsKeyed c _ d h }

  prune_step-KeepsKeyed :
      (kind : CollectionKind) (seen : List Text)
      → KeepsKeyed (prune_step nfc ports cfg retry_failed tracks kind seen)
  unfolding prune_step
  prune_step-KeepsKeyed kind seen = record {
    at = λ d h. elim (Option-cases (ports.fault prune)) [
      | inl e ↦ rw (e, prune_step) h
      | inr (x, e) ↦ rw (e, prune_step) h
    ];
  }

  expand_albums-KeepsKeyed :
      (seen : List Text) (seq : Stream Album)
      → KeepsKeyed (expand_albums nfc ports cfg retry_failed tracks seen seq)
  unfolding expand_albums
  expand_albums-KeepsKeyed seen [] = prune_step-KeepsKeyed album seen
  expand_albums-KeepsKeyed seen (err e ∷ seq) = stop-KeepsKeyed e
  expand_albums-KeepsKeyed seen (ok a ∷ seq) =
      then_step-KeepsKeyed _ _ (expand_collection-KeepsKeyed _)
        (expand_albums-KeepsKeyed (seen ++ itoa a.id ∷ []) seq)

  expand_playlists-KeepsKeyed :
      (seen : List Text) (seq : Stream Playlist)
      → KeepsKeyed (expand_playlists nfc ports cfg retry_failed tracks seen seq)
  unfolding expand_playlists
  expand_playlists-KeepsKeyed seen [] = prune_step-KeepsKeyed playlist seen
  expand_playlists-KeepsKeyed seen (err e ∷ seq) = stop-KeepsKeyed e
  expand_playlists-KeepsKeyed seen (ok p ∷ seq) =
      then_step-KeepsKeyed _ _ (expand_collection-KeepsKeyed _)
        (expand_playlists-KeepsKeyed (seen ++ p.uuid ∷ []) seq)

  favorites-KeepsKeyed : KeepsKeyed (collect_favorite_tracks ports.favorite_tracks)
  favorites-KeepsKeyed = record { at = collect_favorite_tracks-IsKeyed ports.favorite_tracks }

  pub enumerate_into-KeepsKeyed : KeepsKeyed (enumerate_into nfc ports cfg retry_failed tracks)
  unfolding enumerate_into
  enumerate_into-KeepsKeyed =
      let albums = expand_albums-KeepsKeyed [] ports.favorite_albums in
      let playlists = expand_playlists-KeepsKeyed [] ports.favorite_playlists in
      if-KeepsKeyed cfg.scope.all _ _
        (then_step-KeepsKeyed _ _ (then_step-KeepsKeyed _ _ favorites-KeepsKeyed albums) playlists)
        (then_step-KeepsKeyed _ _
          (then_step-KeepsKeyed _ _ (when-KeepsKeyed _ _ favorites-KeepsKeyed)
            (when-KeepsKeyed _ _ albums))
          (when-KeepsKeyed _ _ playlists))
