-- ===== src/Tidal/Pages.antt =====
-- pkg/tidal/favorites.go and items.go: a listing of the API, fetched page by page. A stream is what it
-- yields to a caller that takes everything.
pub mod Whole
use tidal_syncer.Shared.{
  ℕ, zero, suc, ◌+◌, Bool, true, false, ◌||◌, Option, none, some, List, [], ◌∷◌, ◌++◌, map, Text,
  codes, length, nat_eq, ◌==◌, leb, if◌then◌else◌,
}
use tidal_syncer.Shared.Int.{ℤ, pos, negsuc}
use tidal_syncer.Failure.{Error, Result, ok, err}
use tidal_syncer.Tidal.Dto.{Track, FavoriteTrack}

-- `favoriteEntry`
pub record FavoriteEntry (A : Type 0) : Type 0 where
  pub item : A
  pub created : Text

-- `favoritesPage`, without the limit and the offset that it echoes.
pub record FavoritesPage (A : Type 0) : Type 0 where
  pub total_number_of_items : ℤ
  pub items : List (FavoriteEntry A)

-- `offset >= page.TotalNumberOfItems`
abbrev pub reaches : ℕ → ℤ → Bool
reaches offset (pos total) = leb total offset
reaches offset (negsuc n) = true

abbrev pub yielding : {A : Type 0} → List A → List (Result A)
yielding xs = map ok xs

abbrev behind : {A : Type 0} → List (Result A) → Option (List (Result A)) → Option (List (Result A))
behind xs none = none
behind xs (some ys) = some (xs ++ ys)

module _ {A : Type 0} where
  abbrev pub paged :
      Result (FavoritesPage A)
      → ℕ
      → (ℕ → Option (List (Result (FavoriteEntry A))))
      → Option (List (Result (FavoriteEntry A)))
  paged (err e) offset next = some (err e ∷ [])
  paged (ok page) offset next =
      let reached = offset + length page.items in
      if length page.items == 0 || reaches reached page.total_number_of_items
      then some (yielding page.items)
      else behind (yielding page.items) (next reached)

  -- `emitFavorites`, in at most `fuel` pages from the offset on; `fetch` is the answer for an offset.
  unfoldable pub emit_favorites :
      (ℕ → Result (FavoritesPage A)) → ℕ → ℕ → Option (List (Result (FavoriteEntry A)))
  emit_favorites fetch zero offset = none
  emit_favorites fetch (suc fuel) offset = paged (fetch offset) offset (emit_favorites fetch fuel)

  -- `streamFavorites`, behind the user id. `fetch` gets the path of the collection.
  abbrev streamed :
      (Text → ℕ → Result (FavoritesPage A))
      → Text
      → ℕ
      → Result Text
      → Option (List (Result (FavoriteEntry A)))
  unfolding emit_favorites
  streamed fetch kind fuel (err e) = some (err e ∷ [])
  streamed fetch kind fuel (ok user_id) =
      emit_favorites (fetch (codes "/users/" ++ (user_id ++ (codes "/favorites/" ++ kind)))) fuel 0

  unfoldable pub stream_favorites :
      Result Text
      → (Text → ℕ → Result (FavoritesPage A))
      → Text
      → ℕ
      → Option (List (Result (FavoriteEntry A)))
  unfolding streamed
  stream_favorites user fetch kind fuel = streamed fetch kind fuel user

  -- What the streams of entities make of it: they end at the first error.
  unfoldable pub items_of :
      {B : Type 0} → (FavoriteEntry A → B) → List (Result (FavoriteEntry A)) → List (Result B)
  items_of f [] = []
  items_of f (err e ∷ stream) = err e ∷ []
  items_of f (ok entry ∷ stream) = ok (f entry) ∷ items_of f stream

abbrev mapped : {A B : Type 0} → (A → B) → Option A → Option B
mapped f none = none
mapped f (some a) = some (f a)

-- `FavoriteAlbums`, `FavoriteArtists` and `FavoritePlaylists` by their kinds.
unfoldable pub favorite_items :
    {A : Type 0}
    → Result Text
    → (Text → ℕ → Result (FavoritesPage A))
    → Text
    → ℕ
    → Option (List (Result A))
unfolding stream_favorites items_of
favorite_items user fetch kind fuel =
    mapped (items_of (λ entry. entry.item)) (stream_favorites user fetch kind fuel)

unfoldable pub favorite_tracks :
    Result Text
    → (Text → ℕ → Result (FavoritesPage Track))
    → ℕ
    → Option (List (Result FavoriteTrack))
unfolding stream_favorites items_of
favorite_tracks user fetch fuel =
    mapped (items_of (λ entry. record { track = entry.item; added_at = entry.created }))
      (stream_favorites user fetch (codes "tracks") fuel)

-- `AlbumTracks` and `PlaylistTracks`, whose streams have the item of each entry, or the error.
unfoldable pub collection_tracks :
    (Text → ℕ → Result (FavoritesPage Track)) → Text → Text → ℕ → Option (List (Result Track))
unfolding emit_favorites items_of
collection_tracks fetch prefix id fuel =
    mapped (items_of (λ entry. entry.item))
      (emit_favorites (fetch (prefix ++ (id ++ codes "/items"))) fuel 0)
