-- ===== src/Tests/Stores.antt =====
-- The tables.
use tidal_syncer.Shared.{
  ℕ, ◌≡◌, ◌⊎◌, ◌↔◌, ◌≤◌, true, ◌≢◌, arith, refl, some, List, [], ◌∷◌, Text, codes, text_eq, nat_eq,
  ◌==◌, leb, length, if◌then◌else◌,
}
use tidal_syncer.Shared.Sort.{sort}
use tidal_syncer.Failure.{constraint, truncated, ok, err}
use tidal_syncer.Store.Rows.{Distinct}
use tidal_syncer.Store.Snapshot.{Snapshots, ids, rows, replace_snapshot}
use tidal_syncer.Store.Snapshot.Diff.{rows-replace_snapshot}
use tidal_syncer.Store.Collection.{
  CollectionKey, Collections, kind_eq, key_eq, playlist, get_collection, put_collection,
}
use tidal_syncer.Store.Collection.Laws.{get-put_collection}
use tidal_syncer.Shared.Map.{lookup}
use tidal_syncer.Store.Stats.{or_zero, library_counts}
use tidal_syncer.Store.Stats.Sums.{total, library_counts-AddUp}
use tidal_syncer.Files.Path.{clean, to_text, join_path}
use tidal_syncer.Namer.Template.{join}
use tidal_syncer.Namer.Template.Paths.{IsSafe}
use tidal_syncer.Tidal.Client.{trim_right}
use tidal_syncer.Metrics.{album_artist}
use tidal_syncer.Metrics.Artist.{album_artist-join_path}
use tidal_syncer.Tag.{Turn, frame, at_end, integrity_check}
use tidal_syncer.Tag.Integrity.{samples, is_complete, integrity_check-accepts}
use tidal_syncer.Tests.Data.{gone, db}

abbrev kind : Text
kind = codes "tracks"

-- The samples that the header of a file says.
abbrev declared : ℕ
declared = 4100

-- A file of two frames.
abbrev turns : List Turn
turns = frame 4096 ∷ frame 4 ∷ at_end ∷ []

integrity_check-accepts_example :
    (integrity_check (ok tt) (ok declared) turns ≡ some (ok tt))
    ↔ ((is_complete turns ≡ true) × (declared ≡ 0 ⊎ declared ≤ samples turns))
integrity_check-accepts_example = integrity_check-accepts declared turns (omega arith)

one_short : integrity_check (ok tt) (ok 4101) turns ≡ some (err (truncated ∷ []))
unfolding integrity_check nat_eq
one_short = refl

rows-replace_snapshot_example :
    (Distinct (ids (gone ∷ []))
      × (db' : Snapshots) × (replace_snapshot kind (gone ∷ []) [] ≡ ok db')
      × (rows kind db' ≡ gone ∷ []))
    ⊎ (¬ Distinct (ids (gone ∷ []))
        × (replace_snapshot kind (gone ∷ []) [] ≡ err (constraint ∷ [])))
rows-replace_snapshot_example = rows-replace_snapshot kind (gone ∷ []) []

library_counts-AddUp_example :
    (total (library_counts db.tracks db.snapshots).by_status ≡ length db.tracks)
    × (total (library_counts db.tracks db.snapshots).by_obtained_quality
        ≡ or_zero (lookup (codes "done") (library_counts db.tracks db.snapshots).by_status))
library_counts-AddUp_example = library_counts-AddUp db.tracks db.snapshots

nonempty : (c : ℕ) (s : Text) → (c ∷ s) ≢ []
nonempty c s = λ e. cc

one_letter : IsSafe (codes "a")
unfolding nat_eq tidal_syncer.Namer.Sanitize.is_control
one_letter =
    (record { nonempty = nonempty b'a' []; short = omega arith; ends = refl }, ((refl, refl), tt))

abbrev root : Text
root = codes "/m/"

root_written : trim_right root ≡ to_text (clean root)
unfolding trim_right to_text clean text_eq nat_eq
root_written = refl

root_parts : (clean root).parts ≡ codes "m" ∷ []
unfolding clean text_eq nat_eq
root_parts = refl

album_artist-join_path_example :
    album_artist (to_text (join_path (clean root) (join b'/' (codes "a" ∷ codes "a" ∷ [])))) root
    ≡ codes "a"
album_artist-join_path_example =
    album_artist-join_path root (codes "m") [] (codes "a") (codes "a") [] root_written root_parts
      (nonempty b'm' []) (one_letter, (one_letter, tt))

-- Under a root with a leading dot, the file of the engine has no artist.
no_artist :
    album_artist (to_text (join_path (clean (codes "./m")) (codes "a/b"))) (codes "./m") ≡ []
unfolding album_artist trim_right to_text clean join_path text_eq nat_eq
no_artist = refl

abbrev mix : CollectionKey
mix = record { kind = playlist; id = codes "mix" }

-- A playlist that lists a track twice.
abbrev twice : List ℕ
twice = 7 ∷ 8 ∷ 7 ∷ []

twice_fails : put_collection mix (codes "v") twice [] ≡ err (constraint ∷ [])
unfolding put_collection nat_eq
twice_fails = refl

get-put_collection_example :
    (Distinct twice
      × (db' : Collections) × (put_collection mix (codes "v") twice [] ≡ ok db')
      × ((k : CollectionKey)
          → get_collection k db' ≡ (
              if k == mix
              then some (record {
                version = codes "v";
                n_tracks = length twice;
                track_ids = sort leb twice;
              })
              else get_collection k [])))
    ⊎ (¬ Distinct twice × (put_collection mix (codes "v") twice [] ≡ err (constraint ∷ [])))
get-put_collection_example = get-put_collection mix (codes "v") twice []

abbrev cached : Collections
cached = (mix, record { version = codes "v"; n_tracks = 1; track_ids = 7 ∷ [] }) ∷ []
