-- ===== src/Sync/Removal/Sandbox.antt =====
-- The removals stay within the music root.
use mathlib.Core.List.{reverse}
use tidal_syncer.Shared.{
  ◌++◌, codes, ap, refl, ℕ, Bool, true, false, Bool-cases, Option-cases, inl, inr, Option, none,
  some, List, [], ◌∷◌, ◌++◌, Text, codes, text_eq, ◌==◌, ◌≡◌, All,
}
use tidal_syncer.Failure.{Error, not_found, removal_fatal, is, Result, ok, err}
use tidal_syncer.Files.Path.{FilePath, path_eq, clean, dir, rel}
use tidal_syncer.Store.Db.{Db}
use tidal_syncer.Store.Tracks.{Track, get_track}
use tidal_syncer.Store.Snapshot.{SnapshotItem}
use tidal_syncer.Sync.Ports.{Statement, select_snapshot, select_track}
use tidal_syncer.Sync.Process.{query}
use tidal_syncer.Sync.Removal.Trash.{IsCleaned, IsTrashed, clean-IsCleaned, trash_path-IsTrashed}
use tidal_syncer.Sync.Removal.{
  Call, lstat, remove, read_dir, mkdir_all, rename, Log, Os, Sys, before, within_music, lrc_sidecar,
  unless_missing, remove_path, move_to_trash, renamed, found, to_dest, trash_path, prune_from,
  prune_empty_dirs, sidecar_step, then_prune, remove_files, mirror, trash, apply_policy,
  apply_found, after_removal, reconcile_ids, reconcile_removed, reconcile, is_empty, removed_dir,
  removed_ids,
}

-- What a call looks at or deletes is within the root; what it moves goes from there to the same place
-- below the root's ".trash", for which it makes the directory.
abbrev pub IsInside : FilePath → Call → Type 0
IsInside music (lstat p) = within_music music p ≡ true
IsInside music (remove p) = within_music music p ≡ true
IsInside music (read_dir p) = within_music music p ≡ true
IsInside music (mkdir_all p) =
    (r : List Text) × (p ≡ dir (record music { parts = music.parts ++ codes ".trash" ∷ r }))
IsInside music (rename src dest) = (r : List Text) × IsTrashed music src dest r

module _ (os : Os) (music : FilePath) where
  abbrev Inside : Log → Type 0
  Inside log = All (IsInside music) log

  -- A call that keeps the log inside.
  abbrev Keeps : {A : Type 0} → Sys A → Type 0
  Keeps m = (log : Log) → Inside log → Inside (m log).1

  before-Inside :
      {A B : Type 0} (r : Result A × Log) (k : A → Sys B)
      → Inside r.1
      → ((a : A) → Keeps (k a))
      → Inside (before r k).1
  unfolding before
  before-Inside (ok a, log) k h p = p a log h
  before-Inside (err e, log) k h p = h

  remove_path-Keeps :
      (s : Text) → within_music music (clean s) ≡ true → Keeps (remove_path os music (clean s))
  unfolding remove_path
  remove_path-Keeps p w log h = (w, h)

  renamed-Inside :
      (src dest : FilePath) (log : Log) (r : Result ℕ) (below : List Text)
      → IsTrashed music src dest below
      → Inside log
      → Inside (renamed os music src dest log r).1
  renamed-Inside src dest log (err e) below w h = h
  renamed-Inside src dest log (ok n) below w h = ((below, w), h)

  to_dest-Inside :
      (src : FilePath) (log : Log) (o : Option (List Text))
      → IsCleaned (reverse src.parts)
      → within_music music src ≡ true
      → rel music src ≡ o
      → Inside log
      → Inside (to_dest os music src log o).1
  to_dest-Inside src log none c w e h = h
  to_dest-Inside src log (some r) c w e h =
      let dest = trash_path music r in
      let t = trash_path-IsTrashed music src r c w e in
      renamed-Inside src dest (mkdir_all (dir dest) ∷ log) (os log (mkdir_all (dir dest))) r t
        ((r, ap dir t.1), h)

  found-Inside :
      (src : FilePath) (log : Log) (r : Result Bool)
      → IsCleaned (reverse src.parts)
      → within_music music src ≡ true
      → Inside log
      → Inside (found os music src log r).1
  found-Inside src log (err e) c w h = h
  found-Inside src log (ok false) c w h = h
  found-Inside src log (ok true) c w h = to_dest-Inside src log (rel music src) c w refl h

  move_to_trash-Keeps :
      (s : Text) → within_music music (clean s) ≡ true → Keeps (move_to_trash os music (clean s))
  unfolding move_to_trash
  move_to_trash-Keeps s w log h =
      let p = clean s in
      found-Inside p (lstat p ∷ log) (unless_missing (os log (lstat p))) (clean-IsCleaned s) w
        (w, h)

  removed_dir-Inside :
      (r : Result ℕ) (log next : Log)
      → Inside log
      → Inside next
      → Inside (removed_dir os music r log next)
  removed_dir-Inside (ok n) log next h k = k
  removed_dir-Inside (err e) log next h k = h

  prune_from-Inside :
      (rooted : Bool) (up : List Text) (log : Log)
      → Inside log
      → Inside (prune_from os music rooted up log)
  unfolding prune_from
  prune_from-Inside rooted [] log h = h
  prune_from-Inside rooted (c ∷ up) log h =
      let here : FilePath = record { rooted = rooted; parts = reverse (c ∷ up) } in
      let listed : Log = read_dir here ∷ log in
      elim (Bool-cases (here == music)) [
        | inl e ↦ rw e h
        | inr e ↦ rw e (elim (Bool-cases (within_music music here)) [
          | inr o ↦ rw o h
          | inl w ↦ rw w (elim (Bool-cases (is_empty os music (os log (read_dir here)))) [
            | inr n ↦ rw n (w, h)
            | inl n ↦ rw n (
                removed_dir-Inside (os listed (remove here)) (remove here ∷ listed)
                  (prune_from os music rooted up (remove here ∷ listed)) (w, (w, h))
                  (prune_from-Inside rooted up (remove here ∷ listed) (w, (w, h))))
          ])
        ])
      ]

  sidecar_step-Keeps :
      (act : FilePath → Sys Bool) (path : Text)
      → ((s : Text) → within_music music (clean s) ≡ true → Keeps (act (clean s)))
      → Keeps (sidecar_step os music act path)
  unfolding sidecar_step
  sidecar_step-Keeps act path k log h =
      elim (Bool-cases (within_music music (clean (lrc_sidecar path)))) [
        | inl e ↦ rw e (k (lrc_sidecar path) e log h)
        | inr e ↦ rw e h
      ]

  then_prune-Keeps : (path : Text) (b : Bool) → Keeps (then_prune os music path b)
  unfolding then_prune prune_empty_dirs
  then_prune-Keeps path b log h = prune_from-Inside _ _ log h

  remove_files-Keeps :
      (act : FilePath → Sys Bool) (path : Text)
      → ((s : Text) → within_music music (clean s) ≡ true → Keeps (act (clean s)))
      → within_music music (clean path) ≡ true
      → Keeps (remove_files os music act path)
  unfolding remove_files
  remove_files-Keeps act path k w log h =
      before-Inside (act (clean path) log)
        (λ b log1. before (sidecar_step os music act path log1) (then_prune os music path))
        (k path w log h)
        λ b log1 h1.
          before-Inside (sidecar_step os music act path log1) (then_prune os music path)
            (sidecar_step-Keeps act path k log1 h1) (then_prune-Keeps path)

  apply_policy-Keeps : (policy path : Text) → Keeps (apply_policy os music policy path)
  unfolding apply_policy mirror trash
  apply_policy-Keeps policy path log h = elim (Bool-cases (path == [])) [
    | inl e ↦ rw e h
    | inr e ↦ rw e (elim (Bool-cases (within_music music (clean path))) [
      | inr o ↦ rw o h
      | inl w ↦ rw w (elim (Bool-cases (policy == codes "mirror")) [
        | inl m ↦ rw m (remove_files-Keeps (remove_path os music) path remove_path-Keeps w log h)
        | inr m ↦ rw m (elim (Bool-cases (policy == codes "trash")) [
          | inl t ↦
              rw t (remove_files-Keeps (move_to_trash os music) path move_to_trash-Keeps w log h)
          | inr t ↦ rw t h
        ])
      ])
    ])
  ]

  apply_found-Keeps : (policy : Text) (r : Result Track) → Keeps (apply_found os music policy r)
  unfolding apply_found
  apply_found-Keeps policy (ok row) log h = apply_policy-Keeps policy row.path log h
  apply_found-Keeps policy (err e) log h = elim (Bool-cases (is e not_found)) [
    | inl f ↦ rw f h
    | inr f ↦ rw f h
  ]

  after_removal-Inside :
      (id : Text) (r : Result (Unit {0}) × Log) (rest : List Text → Sys (List Text))
      (failed : List Text)
      → Inside r.1
      → ((fs : List Text) → Keeps (rest fs))
      → Inside (after_removal os music id r rest failed).1
  unfolding after_removal
  after_removal-Inside id (ok u, log) rest failed h k = k failed log h
  after_removal-Inside id (err e, log) rest failed h k = elim (Bool-cases (is e removal_fatal)) [
    | inl f ↦ rw f h
    | inr f ↦ rw f (k (failed ++ id ∷ []) log h)
  ]

  module _ (fault : Statement → Option Error) (policy : Text) (db : Db) where
    reconcile_ids-Keeps :
        (ids failed : List Text) → Keeps (reconcile_ids os music fault policy db ids failed)
    unfolding reconcile_ids
    reconcile_ids-Keeps [] failed log h = h
    reconcile_ids-Keeps (id ∷ ids) failed log h =
        after_removal-Inside id _ (reconcile_ids os music fault policy db ids) failed
          (apply_found-Keeps policy (query (fault select_track) (get_track id db.tracks)) log h)
          (reconcile_ids-Keeps ids)

    reconcile_removed-Keeps :
        (removed : List Text) → Keeps (reconcile_removed os music fault policy db removed)
    unfolding reconcile_removed
    reconcile_removed-Keeps [] log h = h
    reconcile_removed-Keeps (id ∷ ids) log h = elim (Bool-cases (policy == codes "keep")) [
      | inl e ↦ rw e h
      | inr e ↦ rw e (reconcile_ids-Keeps (id ∷ ids) [] log h)
    ]

-- Whatever the policy, the store, the favorites and the answers of the system are, and whether or not
-- calls fail, every file or directory that `Reconcile` looks at, lists or deletes is within the music
-- root, and every file that it moves goes from below the root to the same place below the root's
-- ".trash", the only place where it makes directories.
pub reconcile-IsInside :
    (os : Os) (music : FilePath) (fault : Statement → Option Error) (policy : Text) (db : Db)
    (current : List SnapshotItem)
    → All (IsInside music) (reconcile os music fault policy db current []).1
unfolding reconcile
reconcile-IsInside os music fault policy db current = elim (Option-cases (fault select_snapshot)) [
  | inl e ↦
      rw (e, reconcile)
        (reconcile_removed-Keeps os music fault policy db (removed_ids db current) [] tt)
  | inr (x, e) ↦ rw (e, reconcile) tt
]
