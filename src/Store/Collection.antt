-- ===== src/Store/Collection.antt =====
-- internal/store/collection.go: the cached expansions of albums and playlists. The rows of
-- collection_track belong to their collection_cache row, and go with it (ON DELETE CASCADE).
pub mod Laws
use native.Mathlib.Decide.{ℕ_discrete}
use tidal_syncer.Shared.{
  ℕ, Bool, Option, none, some, List, [], ◌∷◌, ◌++◌, Text, text_eq, nat_eq, Eq, ◌==◌, contains, leb,
  length, if◌then◌else◌,
}
use tidal_syncer.Shared.Map.{Map, lookup, insert}
use tidal_syncer.Shared.Sort.{sort}
use tidal_syncer.Failure.{Result, ok, ◌>>=◌}
use tidal_syncer.Store.Rows.{insert_rows}

pub data CollectionKind : Type 0 where
  album playlist : CollectionKind

-- The primary key of collection_cache.
pub record CollectionKey : Type 0 where
  pub kind : CollectionKind
  pub id : Text

CollectionKind-discrete : Discrete CollectionKind
CollectionKind-discrete = hlevel

CollectionKey-discrete : Discrete CollectionKey
CollectionKey-discrete = hlevel (ℕ_discrete, CollectionKind-discrete)

instance unfoldable pub kind_eq : Eq CollectionKind
unfolding CollectionKind-discrete
kind_eq = record { dec = CollectionKind-discrete }

instance unfoldable pub key_eq : Eq CollectionKey
unfolding CollectionKey-discrete CollectionKind-discrete ℕ_discrete
key_eq = record { dec = CollectionKey-discrete }

pub record CollectionCache : Type 0 where
  pub version : Text
  pub n_tracks : ℕ
  pub track_ids : List ℕ

abbrev pub Collections : Type 0
Collections = Map CollectionKey CollectionCache

-- The track ids come back ORDER BY track_id.
unfoldable pub get_collection : CollectionKey → Collections → Option CollectionCache
get_collection key db = elim (lookup key db) [
  | none ↦ none
  | some cache ↦ some (record cache { track_ids = sort leb cache.track_ids })
]

abbrev pub same_id : ℕ → ℕ
same_id id = id

-- One transaction: the upsert of the collection's row, and its track rows anew under the primary key
-- (kind, collection_id, track_id); an error rolls back.
unfoldable pub put_collection : CollectionKey → Text → List ℕ → Collections → Result Collections
unfolding insert_rows
put_collection key version track_ids db = do
  stored ← insert_rows same_id [] track_ids
  ok (insert key (record { version = version; n_tracks = length track_ids; track_ids = stored }) db)

-- The loop over the collections of the kind, with one DELETE for each that is not kept.
unfoldable pub prune_collections : CollectionKind → List Text → Collections → Collections
prune_collections kind keep [] = []
prune_collections kind keep ((key, cache) ∷ db) =
    let rest = prune_collections kind keep db in
    if key.kind == kind
    then (if contains keep key.id then (key, cache) ∷ rest else rest)
    else (key, cache) ∷ rest
