-- ===== src/Store/Snapshot.antt =====
-- internal/store/snapshot.go: the favorites snapshot, its rows listed by kind.
pub mod Diff
use tidal_syncer.Shared.{
  Bool, true, false, Option, none, some, List, [], ◌∷◌, ◌++◌, Text, text_eq, ◌==◌, contains, not,
  map, ◌&&◌, if◌then◌else◌, ◌≡◌, refl, arith,
}
use tidal_syncer.Shared.Map.{Map, lookup, insert}
use tidal_syncer.Shared.Sort.{sort, text_le}
use tidal_syncer.Failure.{constraint, Result, ok, err, ◌>>=◌}
use tidal_syncer.Store.Rows.{insert_rows}
use tidal_syncer.Store.Tracks.{Track, Tracks}

pub record SnapshotItem : Type 0 where
  pub tidal_id : Text
  pub name : Text
  pub added_at : Text

abbrev pub Snapshots : Type 0
Snapshots = Map Text (List SnapshotItem)

abbrev rows_or_nil : Option (List SnapshotItem) → List SnapshotItem
rows_or_nil none = []
rows_or_nil (some items) = items

-- SELECT ... FROM favorites_snapshot WHERE kind = ?
unfoldable pub rows : Text → Snapshots → List SnapshotItem
rows kind db = rows_or_nil (lookup kind db)

abbrev pub item_id : SnapshotItem → Text
item_id item = item.tidal_id

abbrev pub ids : List SnapshotItem → List Text
ids items = map item_id items

-- One transaction: DELETE of the kind, the INSERTs under the primary key (kind, tidal_id), and
-- COMMIT; an error rolls back.
unfoldable pub replace_snapshot : Text → List SnapshotItem → Snapshots → Result Snapshots
unfolding insert_rows
replace_snapshot kind items db = do
  stored ← insert_rows item_id [] items
  ok (insert kind stored db)

-- The ids of `xs` that `ys` lacks, each once: the loops over the keys of a Go set.
unfoldable pub missing_from : List Text → List Text → List Text
missing_from ys [] = []
missing_from ys (x ∷ xs) =
    let rest = missing_from ys xs in
    if contains ys x then rest else if contains xs x then rest else x ∷ rest

pub record SnapshotDiff : Type 0 where
  pub added : List Text
  pub removed : List Text

unfoldable pub diff_snapshot : Text → List SnapshotItem → Snapshots → SnapshotDiff
unfolding rows missing_from
diff_snapshot kind items db = record {
  added = sort text_le (missing_from (ids (rows kind db)) (ids items));
  removed = sort text_le (missing_from (ids items) (ids (rows kind db)));
}

pub record FavoriteFile : Type 0 where
  pub title : Text
  pub path : Text
  pub added_at : Text

-- The row of the JOIN for one snapshot row, under `f.added_at <> '' AND t.path <> ''`.
abbrev join_row : SnapshotItem → Option Track → List FavoriteFile
join_row item none = []
join_row item (some tr) =
    if not (item.added_at == []) && not (tr.path == [])
    then record { title = item.name; path = tr.path; added_at = item.added_at } ∷ []
    else []

join_files : List SnapshotItem → Tracks → List FavoriteFile
join_files [] tracks = []
join_files (item ∷ items) tracks =
    join_row item (lookup item.tidal_id tracks) ++ join_files items tracks

-- ORDER BY f.added_at DESC
abbrev newer : FavoriteFile → FavoriteFile → Bool
newer a b = text_le b.added_at a.added_at

unfoldable pub ordered_favorite_files : Text → Snapshots → Tracks → List FavoriteFile
unfolding rows join_files
ordered_favorite_files kind db tracks = sort newer (join_files (rows kind db) tracks)
