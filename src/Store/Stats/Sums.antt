-- ===== src/Store/Stats/Sums.antt =====
-- The aggregates add up.
use tidal_syncer.Shared.{
  ℕ, suc, ◌+◌, List, [], ◌∷◌, Text, codes, text_eq, nat_eq, map, length, if◌then◌else◌, arith, ◌≡◌,
  refl, ◌∙◌, sym, ap,
}
use tidal_syncer.Shared.Map.{Map, lookup, insert, lookup-insert}
use tidal_syncer.Store.Tracks.{Status, pending, done, failed, Track, Tracks}
use tidal_syncer.Store.Snapshot.{Snapshots}
use tidal_syncer.Store.Stats.{
  status_text, or_zero, group_count, tracks_of, is_done, where_rows, done_tracks, library_counts,
}

-- The sum of the numbers of a grouped count.
abbrev pub total : Map Text ℕ → ℕ
total [] = 0
total ((k, n) ∷ m) = n + total m

total-insert_suc :
    (k : Text) (m : Map Text ℕ) → total (insert k (suc (or_zero (lookup k m))) m) ≡ suc (total m)
unfolding insert lookup text_eq
total-insert_suc k [] = refl
total-insert_suc k ((j, n) ∷ m) = ground (arith, total-insert_suc k m)

total-group_count : (ks : List Text) → total (group_count ks) ≡ length ks
unfolding group_count
total-group_count [] = refl
total-group_count (k ∷ ks) = total-insert_suc k (group_count ks) ∙ ap suc (total-group_count ks)

length-map : {A B : Type 0} (f : A → B) (xs : List A) → length (map f xs) ≡ length xs
length-map f [] = refl
length-map f (x ∷ xs) = ap suc (length-map f xs)

abbrev done_text : Text
done_text = codes "done"

count_one :
    (s : Status) (m : Map Text ℕ) (tr : Track) (rest : List Track)
    → or_zero (lookup done_text m) ≡ length rest
    → or_zero
        (lookup done_text (insert (status_text s) (suc (or_zero (lookup (status_text s) m))) m))
      ≡ length (if is_done s then tr ∷ rest else rest)
unfolding text_eq
count_one pending m tr rest h =
    rw (lookup-insert done_text (codes "pending") (suc (or_zero (lookup (codes "pending") m))) m) h
count_one done m tr rest h =
    rw (lookup-insert done_text done_text (suc (or_zero (lookup done_text m))) m) (ap suc h)
count_one failed m tr rest h =
    rw (lookup-insert done_text (codes "failed") (suc (or_zero (lookup (codes "failed") m))) m) h

count_done :
    (trs : List Track)
    → or_zero (lookup done_text (group_count (map (λ tr. status_text tr.status) trs)))
      ≡ length (done_tracks trs)
unfolding group_count lookup where_rows
count_done [] = refl
count_done (tr ∷ trs) =
    count_one tr.status (group_count (map (λ tr. status_text tr.status) trs)) tr (done_tracks trs)
      (count_done trs)

-- The counts by status add up to the number of tracks, and the counts by the obtained tier to the count
-- of the status done.
pub library_counts-AddUp :
    (db : Tracks) (snapshots : Snapshots)
    → (total (library_counts db snapshots).by_status ≡ length db)
      × (total (library_counts db snapshots).by_obtained_quality
          ≡ or_zero (lookup (codes "done") (library_counts db snapshots).by_status))
unfolding library_counts
library_counts-AddUp db snapshots = (
  total-group_count _ ∙ length-map _ (tracks_of db) ∙ length-map _ db,
  total-group_count _ ∙ length-map _ (done_tracks (tracks_of db)) ∙ sym (count_done (tracks_of db)),
)
