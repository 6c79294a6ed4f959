-- ===== src/Sync/Removal/Pending.antt =====
-- The ids that the removal reports as still pending.
use mathlib.Core.List.{append-nil, append_assoc}
use tidal_syncer.Shared.{
  true, Bool-cases, Option-cases, ◌⊎◌, inl, inr, Option, List, [], ◌∷◌, ◌++◌, Text, codes, text_eq,
  ◌==◌, contains, arith, ◌≡◌, ◌∙◌, sym,
}
use tidal_syncer.Failure.{Error, removal_fatal, is, Result, ok, err}
use tidal_syncer.Files.Path.{FilePath}
use tidal_syncer.Store.Rows.{Distinct, contains-append}
use tidal_syncer.Store.Db.{Db}
use tidal_syncer.Store.Snapshot.{SnapshotItem}
use tidal_syncer.Store.Snapshot.Diff.{removed-Distinct}
use tidal_syncer.Sync.Ports.{Statement, select_snapshot}
use tidal_syncer.Sync.Removal.{
  Log, Os, Sys, after_removal, reconcile_ids, reconcile_removed, reconcile, removed_ids,
  kind_tracks,
}

-- Each id of the first list once, and all of them in the second.
pub record Sublist (xs ys : List Text) : Type 0 where
  pub distinct : Distinct xs
  pub within : (id : Text) → contains xs id ≡ true → contains ys id ≡ true

Sublist-refl : (xs : List Text) → Distinct xs → Sublist xs xs
Sublist-refl xs d = record { distinct = d; within = λ id h. h }

Sublist-answer : (xs p ys : List Text) → ok xs ≡ ok p → Sublist xs ys → Sublist p ys
Sublist-answer xs p ys e s = let same : xs ≡ p = ground (arith, e) in rw (sym same) s

drop_middle : (xs ys : List Text) (id : Text) → Distinct (xs ++ id ∷ ys) → Distinct (xs ++ ys)
drop_middle [] ys id d = d.1
drop_middle (x ∷ xs) ys id d =
    ground (arith, d, contains-append xs (id ∷ ys) x, contains-append xs ys x, drop_middle xs ys id)

drop_last : (xs ys : List Text) → Distinct (xs ++ ys) → Distinct xs
drop_last [] ys d = tt
drop_last (x ∷ xs) ys d = ground (arith, d, contains-append xs ys x, drop_last xs ys)

Sublist-middle :
    (p xs ys : List Text) (id : Text) → Sublist p (xs ++ ys) → Sublist p (xs ++ id ∷ ys)
Sublist-middle p xs ys id s = record {
  distinct = s.distinct;
  within =
      λ j h. contains-append xs (id ∷ ys) j ∙ ground (arith, s.within j h, contains-append xs ys j);
}

module _ (os : Os) (music : FilePath) where
  after_removal-eq-ok :
      (id : Text) (r : Result (Unit {0}) × Log) (rest : List Text → Sys (List Text))
      (failed p : List Text)
      → (after_removal os music id r rest failed).0 ≡ ok p
      → (log : Log) × (((rest failed log).0 ≡ ok p) ⊎ ((rest (failed ++ id ∷ []) log).0 ≡ ok p))
  unfolding after_removal
  after_removal-eq-ok id (ok u, log) rest failed p h = (log, inl h)
  after_removal-eq-ok id (err e, log) rest failed p h = elim (Bool-cases (is e removal_fatal)) [
    | inl f ↦ absurd (ground (arith, h, f))
    | inr f ↦ (log, inr (rw f at h))
  ]

  module _ (fault : Statement → Option Error) (policy : Text) (db : Db) where
    reconcile_ids-Sublist :
        (ids failed p : List Text) (log : Log)
        → Distinct (failed ++ ids)
        → (reconcile_ids os music fault policy db ids failed log).0 ≡ ok p
        → Sublist p (failed ++ ids)
    unfolding reconcile_ids
    reconcile_ids-Sublist [] failed p log d h =
        Sublist-answer failed p (failed ++ []) h
          (rw append-nil (Sublist-refl failed (rw append-nil at d)))
    reconcile_ids-Sublist (id ∷ ids) failed p log d h =
        let (log', step) =
          after_removal-eq-ok id _ (reconcile_ids os music fault policy db ids) failed p h in
        elim step [
          | inl k ↦
              Sublist-middle p failed ids id
                (reconcile_ids-Sublist ids failed p log' (drop_middle failed ids id d) k)
          | inr k ↦
              let shift = append_assoc failed (id ∷ []) ids in
              rw shift at (reconcile_ids-Sublist ids (failed ++ id ∷ []) p log' (rw shift d) k)
        ]

    reconcile_removed-Sublist :
        (removed p : List Text) (log : Log)
        → Distinct removed
        → (reconcile_removed os music fault policy db removed log).0 ≡ ok p
        → Sublist p removed
    unfolding reconcile_removed
    reconcile_removed-Sublist [] p log d h = Sublist-answer [] p [] h (Sublist-refl [] tt)
    reconcile_removed-Sublist (id ∷ ids) p log d h = elim (Bool-cases (policy == codes "keep")) [
      | inl e ↦
          Sublist-answer [] p (id ∷ ids) (rw e at h)
            (record { distinct = tt; within = λ j c. absurd (ground (arith, c)) })
      | inr e ↦ reconcile_ids-Sublist (id ∷ ids) [] p log d (rw e at h)
    ]

-- The ids that `Reconcile` returns are distinct and all among those that are no longer favorites.
pub reconcile-Sublist :
    (os : Os) (music : FilePath) (fault : Statement → Option Error) (policy : Text) (db : Db)
    (current : List SnapshotItem) (p : List Text)
    → (reconcile os music fault policy db current []).0 ≡ ok p
    → Sublist p (removed_ids db current)
unfolding reconcile
reconcile-Sublist os music fault policy db current p h =
    elim (Option-cases (fault select_snapshot)) [
      | inl e ↦
          reconcile_removed-Sublist os music fault policy db (removed_ids db current) p []
            (removed-Distinct kind_tracks current db.snapshots) (rw (e, reconcile) at h)
      | inr (x, e) ↦ absurd (ground (arith, h, e))
    ]
