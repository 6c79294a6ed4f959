-- ===== src/Store/Snapshot/Diff.antt =====
-- What the snapshot diff lists.
use tidal_syncer.Shared.{
  ◌≡◌, refl, ◌∙◌, ◌⊎◌, inl, inr, false, ◌&&◌, not, List, [], ◌∷◌, Text, text_eq, contains, arith,
}
use tidal_syncer.Shared.Map.{insert, lookup-insert_self}
use tidal_syncer.Shared.Sort.{sort, insert_sorted, text_le, contains-insert_sorted, contains-sort}
use tidal_syncer.Failure.{constraint, ok, err}
use tidal_syncer.Store.Rows.{Distinct, insert_rows_lem}
use tidal_syncer.Store.Snapshot.{
  SnapshotItem, Snapshots, rows, ids, item_id, missing_from, replace_snapshot, diff_snapshot,
}

contains-missing_from :
    (ys xs : List Text) (id : Text)
    → contains (missing_from ys xs) id ≡ (contains xs id && not (contains ys id))
unfolding missing_from
contains-missing_from ys [] id = refl
contains-missing_from ys (x ∷ xs) id = ground (arith, contains-missing_from ys xs id)

missing_from-Distinct : (ys xs : List Text) → Distinct (missing_from ys xs)
unfolding missing_from
missing_from-Distinct ys [] = tt
missing_from-Distinct ys (x ∷ xs) =
    ground (arith, missing_from-Distinct ys xs, contains-missing_from ys xs x)

Distinct-insert_sorted :
    (x : Text) (xs : List Text)
    → contains xs x ≡ false
    → Distinct xs
    → Distinct (insert_sorted text_le x xs)
unfolding insert_sorted
Distinct-insert_sorted x [] n d = (refl, tt)
Distinct-insert_sorted x (y ∷ ys) n d =
    ground (arith, n, d, contains-insert_sorted text_le y x ys, Distinct-insert_sorted x ys)

Distinct-sort : (xs : List Text) → Distinct xs → Distinct (sort text_le xs)
unfolding sort
Distinct-sort [] d = tt
Distinct-sort (x ∷ xs) d =
    Distinct-insert_sorted x (sort text_le xs) (contains-sort text_le x xs ∙ d.0)
      (Distinct-sort xs d.1)

pub removed-Distinct :
    (kind : Text) (items : List SnapshotItem) (db : Snapshots)
    → Distinct (diff_snapshot kind items db).removed
unfolding diff_snapshot
removed-Distinct kind items db =
    Distinct-sort _ (missing_from-Distinct (ids items) (ids (rows kind db)))

-- An id is listed as removed exactly when the stored snapshot has it and the items do not, and as
-- added exactly when the items have it and the stored snapshot does not.
pub contains-diff_snapshot :
    (kind : Text) (items : List SnapshotItem) (db : Snapshots) (id : Text)
    → (contains (diff_snapshot kind items db).removed id
        ≡ (contains (ids (rows kind db)) id && not (contains (ids items) id)))
      × (contains (diff_snapshot kind items db).added id
          ≡ (contains (ids items) id && not (contains (ids (rows kind db)) id)))
unfolding diff_snapshot
contains-diff_snapshot kind items db id = (
  contains-sort text_le id _ ∙ contains-missing_from (ids items) (ids (rows kind db)) id,
  contains-sort text_le id _ ∙ contains-missing_from (ids (rows kind db)) (ids items) id,
)

-- A snapshot whose ids are distinct replaces the stored rows of its kind by its items; one with an id
-- twice fails on the primary key, and so replaces nothing.
pub rows-replace_snapshot :
    (kind : Text) (items : List SnapshotItem) (db : Snapshots)
    → (Distinct (ids items)
        × (db' : Snapshots) × (replace_snapshot kind items db ≡ ok db')
        × (rows kind db' ≡ items))
      ⊎ (¬ Distinct (ids items) × (replace_snapshot kind items db ≡ err (constraint ∷ [])))
unfolding replace_snapshot rows
rows-replace_snapshot kind items db = elim (insert_rows_lem item_id items) [
  | inl (distinct, stored) ↦
      inl (distinct, insert kind items db, rw stored, rw lookup-insert_self refl)
  | inr (twice, failed) ↦ inr (twice, rw failed)
]
