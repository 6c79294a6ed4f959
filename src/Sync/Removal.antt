-- ===== src/Sync/Removal.antt =====
-- internal/sync/removal.go: what happens to the files of tracks that are no longer favorites. The
-- calls of the file system are kept in a log, the last first; the system's answer to a call may
-- depend on all calls before it. A call names a cleaned path, since a path and its cleaned form name
-- the same file.
pub mod Within
pub mod Trash
pub mod Sandbox
pub mod Pending
use mathlib.Core.List.{reverse}
use tidal_syncer.Shared.{
  ℕ, zero, suc, Bool, true, false, not, ◌&&◌, ◌||◌, Option, none, some, List, [], ◌∷◌, ◌++◌, Text,
  codes, text_eq, nat_eq, Eq, ◌==◌, contains, take, length, ◌-◌, if◌then◌else◌, ltb,
}
use tidal_syncer.Failure.{Error, not_found, not_exist, removal_fatal, plain, is, Result, ok, err}
use tidal_syncer.Files.Path.{FilePath, path_eq, clean, dir, rel, ext, push_all, dot_dot}
use tidal_syncer.Store.Db.{Db}
use tidal_syncer.Store.Tracks.{Track, get_track}
use tidal_syncer.Store.Snapshot.{SnapshotItem, diff_snapshot}
use tidal_syncer.Sync.Ports.{Statement, select_track, select_snapshot}
use tidal_syncer.Sync.Process.{query}

pub data Call : Type 0 where
  lstat remove read_dir mkdir_all : FilePath → Call
  rename : FilePath → FilePath → Call

abbrev pub Log : Type 0
Log = List Call

-- The answer of the system to a call after those of the log: an error, or the number of entries that
-- `ReadDir` finds, which is of no use for the other calls.
abbrev pub Os : Type 0
Os = Log → Call → Result ℕ

abbrev pub Sys : Type 0 → Type 0
Sys A = Log → Result A × Log

unfoldable pub before : {A B : Type 0} → Result A × Log → (A → Sys B) → Result B × Log
before (ok a, log) k = k a log
before (err e, log) k = (err e, log)

abbrev pub starts_up : List Text → Bool
starts_up [] = false
starts_up (c ∷ cs) = c == dot_dot

abbrev inside : Option (List Text) → Bool
inside none = false
inside (some r) = not (starts_up r)

-- `withinMusic`
unfoldable pub within_music : FilePath → FilePath → Bool
unfolding rel
within_music music path = inside (rel music path)

-- `lrcSidecar`
unfoldable pub lrc_sidecar : Text → Text
unfolding ext
lrc_sidecar path = take (length path - length (ext path)) path ++ codes ".lrc"

-- `filepath.Dir` of a string: what stands up to the last separator, cleaned.
dir_part : Text → Text
dir_part [] = []
dir_part (c ∷ cs) =
    let rest = dir_part cs in
    if contains cs b'/' then c ∷ rest else if c == b'/' then c ∷ [] else []

-- A missing file is no failure.
unfoldable pub unless_missing : Result ℕ → Result Bool
unless_missing (ok n) = ok true
unless_missing (err e) = if is e not_exist then ok false else err e

-- `filepath.Join(music, ".trash", rel)`
abbrev pub trash_path : FilePath → List Text → FilePath
trash_path music r = record music {
  parts = reverse (push_all music.rooted (reverse music.parts) (codes ".trash" ∷ r));
}

-- The kind under which the favorite tracks stand.
abbrev pub kind_tracks : Text
kind_tracks = codes "tracks"

abbrev pub removed_ids : Db → List SnapshotItem → List Text
removed_ids db current = (diff_snapshot kind_tracks current db.snapshots).removed

module _ (os : Os) (music : FilePath) where
  unfoldable pub remove_path : FilePath → Sys Bool
  unfolding unless_missing
  remove_path path log = (unless_missing (os log (remove path)), remove path ∷ log)

  abbrev renamed : FilePath → FilePath → Log → Result ℕ → Result Bool × Log
  renamed src dest log (err e) = (err e, log)
  renamed src dest log (ok n) =
      (elim (os log (rename src dest)) [ ok m ↦ ok true | err e ↦ err e ], rename src dest ∷ log)

  abbrev to_dest : FilePath → Log → Option (List Text) → Result Bool × Log
  to_dest src log none = (err (plain ∷ []), log)
  to_dest src log (some r) =
      let dest = trash_path music r in
      renamed src dest (mkdir_all (dir dest) ∷ log) (os log (mkdir_all (dir dest)))

  abbrev found : FilePath → Log → Result Bool → Result Bool × Log
  found src log (err e) = (err e, log)
  found src log (ok false) = (ok false, log)
  found src log (ok true) = to_dest src log (rel music src)

  unfoldable pub move_to_trash : FilePath → Sys Bool
  unfolding unless_missing
  move_to_trash src log = found src (lstat src ∷ log) (unless_missing (os log (lstat src)))

  -- The directories from the deepest on, by their components last first. The walk stops at the root.
  abbrev removed_dir : Result ℕ → Log → Log → Log
  removed_dir (ok n) log next = next
  removed_dir (err e) log next = log

  is_empty : Result ℕ → Bool
  is_empty (ok zero) = true
  is_empty (ok (suc n)) = false
  is_empty (err e) = false

  unfoldable pub prune_from : Bool → List Text → Log → Log
  unfolding is_empty
  prune_from rooted [] log = log
  prune_from rooted (c ∷ up) log =
      let here : FilePath = record { rooted = rooted; parts = reverse (c ∷ up) } in
      let listed : Log = read_dir here ∷ log in
      let deleted : Log = remove here ∷ listed in
      let next = prune_from rooted up deleted in
      if here == music
      then log
      else if not (within_music music here)
      then log
      else if is_empty (os log (read_dir here))
      then removed_dir (os listed (remove here)) deleted next
      else listed

  unfoldable pub prune_empty_dirs : FilePath → Log → Log
  unfolding prune_from
  prune_empty_dirs d log = prune_from d.rooted (reverse d.parts) log

  -- The sidecar is dealt with like the file, if it is within the music root.
  sidecar_step : (FilePath → Sys Bool) → Text → Sys Bool
  sidecar_step act path log =
      let lrc = clean (lrc_sidecar path) in
      if within_music music lrc then act lrc log else (ok false, log)

  then_prune : Text → Bool → Sys (Unit {0})
  unfolding dir_part
  then_prune path b log = (ok tt, prune_empty_dirs (clean (dir_part path)) log)

  -- What `mirror` and `trash` share: the file, its sidecar, and then the directories.
  unfoldable pub remove_files : (FilePath → Sys Bool) → Text → Sys (Unit {0})
  unfolding before sidecar_step then_prune
  remove_files act path log =
      before (act (clean path) log) λ b log1. before (sidecar_step act path log1) (then_prune path)

  unfoldable pub mirror : Text → Sys (Unit {0})
  unfolding remove_files remove_path
  mirror path = remove_files remove_path path

  unfoldable pub trash : Text → Sys (Unit {0})
  unfolding remove_files move_to_trash
  trash path = remove_files move_to_trash path

  unfoldable pub apply_policy : Text → Text → Sys (Unit {0})
  unfolding mirror trash
  apply_policy policy path log =
      if path == []
      then (ok tt, log)
      else if not (within_music music (clean path))
      then (ok tt, log)
      else if policy == codes "mirror"
      then mirror path log
      else if policy == codes "trash"
      then trash path log
      else (ok tt, log)

  apply_found : Text → Result Track → Sys (Unit {0})
  unfolding apply_policy
  apply_found policy (ok row) log = apply_policy policy row.path log
  apply_found policy (err e) log =
      if is e not_found then (ok tt, log) else (err (removal_fatal ∷ e), log)

  -- The loop of `Reconcile`: the ids whose removal failed, or the first fatal error.
  after_removal :
      Text
      → Result (Unit {0}) × Log
      → (List Text → Sys (List Text))
      → List Text
      → Result (List Text) × Log
  after_removal id (ok u, log) rest failed = rest failed log
  after_removal id (err e, log) rest failed =
      if is e removal_fatal then (err e, log) else rest (failed ++ id ∷ []) log

  unfoldable pub reconcile_ids :
      (Statement → Option Error) → Text → Db → List Text → List Text → Sys (List Text)
  unfolding apply_found after_removal query
  reconcile_ids fault policy db [] failed log = (ok failed, log)
  reconcile_ids fault policy db (id ∷ ids) failed log =
      after_removal id
        (apply_found policy (query (fault select_track) (get_track id db.tracks)) log)
        (reconcile_ids fault policy db ids) failed

  reconcile_removed : (Statement → Option Error) → Text → Db → List Text → Sys (List Text)
  unfolding reconcile_ids
  reconcile_removed fault policy db [] log = (ok [], log)
  reconcile_removed fault policy db (id ∷ ids) log =
      let done = reconcile_ids fault policy db (id ∷ ids) [] log in
      if policy == codes "keep" then (ok [], log) else done

  unfoldable pub reconcile :
      (Statement → Option Error) → Text → Db → List SnapshotItem → Sys (List Text)
  unfolding reconcile_removed
  reconcile fault policy db current log = elim (fault select_snapshot) [
    | some e ↦ (err e, log)
    | none ↦ reconcile_removed fault policy db (removed_ids db current) log
  ]
