-- ===== src/Store/Collection/Laws.antt =====
-- What the collection cache gives back.
use tidal_syncer.Shared.{
  ℕ, ◌≡◌, refl, ◌⊎◌, inl, inr, ◌&&◌, not, none, some, List, [], ◌∷◌, map, Text, text_eq, nat_eq,
  ◌==◌, contains, leb, length, if◌then◌else◌, arith,
}
use tidal_syncer.Shared.Map.{lookup, insert, lookup-insert}
use tidal_syncer.Shared.Sort.{sort}
use tidal_syncer.Failure.{constraint, ok, err}
use tidal_syncer.Store.Rows.{Distinct, insert_rows_lem}
use tidal_syncer.Store.Collection.{
  CollectionKind, CollectionKey, key_eq, kind_eq, CollectionCache, Collections, get_collection,
  put_collection, prune_collections, same_id,
}

map-same_id : (ids : List ℕ) → map same_id ids ≡ ids
map-same_id [] = refl
map-same_id (i ∷ ids) = rw (map-same_id ids)

get_collection-insert :
    (k key : CollectionKey) (cache : CollectionCache) (db : Collections)
    → get_collection k (insert key cache db) ≡ (
        if k == key
        then some (record cache { track_ids = sort leb cache.track_ids })
        else get_collection k db)
unfolding get_collection
get_collection-insert k key cache db = ground (arith, lookup-insert k key cache db)

-- Where the track ids are distinct, the collection reads back with its version, its number of
-- tracks and the ids in ascending order, and every other collection reads as before. Where an id
-- stands twice, the statement fails on the primary key.
pub get-put_collection :
    (key : CollectionKey) (version : Text) (track_ids : List ℕ) (db : Collections)
    → (Distinct track_ids
        × (db' : Collections) × (put_collection key version track_ids db ≡ ok db')
        × ((k : CollectionKey)
            → get_collection k db' ≡ (
                if k == key
                then some (record {
                  version = version;
                  n_tracks = length track_ids;
                  track_ids = sort leb track_ids;
                })
                else get_collection k db)))
      ⊎ (¬ Distinct track_ids × (put_collection key version track_ids db ≡ err (constraint ∷ [])))
unfolding put_collection
get-put_collection key version track_ids db = elim (insert_rows_lem same_id track_ids) [
  | inl (distinct, stored) ↦ inl (
    rw map-same_id at distinct,
    insert key (record { version = version; n_tracks = length track_ids; track_ids = track_ids })
        db,
    rw stored,
    λ k. get_collection-insert k key _ db,
  )
  | inr (twice, failed) ↦ inr (rw map-same_id at twice, rw failed)
]

-- Pruning removes exactly the collections of the kind whose id is not kept.
pub lookup-prune_collections :
    (kind : CollectionKind) (keep : List Text) (db : Collections) (k : CollectionKey)
    → lookup k (prune_collections kind keep db)
      ≡ (if k.kind == kind && not (contains keep k.id) then none else lookup k db)
unfolding prune_collections lookup
lookup-prune_collections kind keep [] k = ground arith
lookup-prune_collections kind keep ((j, cache) ∷ db) k =
    ground (arith, lookup-prune_collections kind keep db k)
