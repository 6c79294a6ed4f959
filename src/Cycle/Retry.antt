-- ===== src/Cycle/Retry.antt =====
-- The snapshot that a cycle leaves for the next run.
use tidal_syncer.Shared.{
  Bool, true, false, not, ◌&&◌, ◌||◌, Bool-cases, inl, inr, none, List, [], ◌∷◌, ◌++◌, map, Text,
  text_eq, contains, arith, ◌≡◌, refl, ◌∙◌,
}
use tidal_syncer.Failure.{ok}
use tidal_syncer.Files.Path.{clean}
use tidal_syncer.Config.Types.{Config}
use tidal_syncer.Store.Rows.{Distinct, contains-append}
use tidal_syncer.Store.Db.{Db}
use tidal_syncer.Store.Snapshot.{SnapshotItem, ids, rows, diff_snapshot}
use tidal_syncer.Store.Snapshot.Diff.{rows-replace_snapshot, contains-diff_snapshot}
use tidal_syncer.Sync.Ports.{Ports, replace_rows}
use tidal_syncer.Sync.Process.{query}
use tidal_syncer.Sync.Removal.{Os, Log, reconcile, kind_tracks}
use tidal_syncer.Sync.Removal.Pending.{reconcile-Sublist}
use tidal_syncer.Sync.Engine.{Summary, sync_once}
use tidal_syncer.Sync.Engine.Totals.{sync_once-counts}
use tidal_syncer.Cycle.{pending_item, next_snapshot, replaced, refresh, after_pass, execute_sync}

ids-append : (xs ys : List SnapshotItem) → ids (xs ++ ys) ≡ ids xs ++ ids ys
ids-append [] ys = refl
ids-append (x ∷ xs) ys = rw (ids-append xs ys)

ids-pending : (p : List Text) → ids (map pending_item p) ≡ p
ids-pending [] = refl
ids-pending (id ∷ p) = rw (ids-pending p)

pub ids-next_snapshot :
    (current : List SnapshotItem) (p : List Text) → ids (next_snapshot current p) ≡ ids current ++ p
unfolding next_snapshot
ids-next_snapshot current p = rw (ids-append, ids-pending) refl

Distinct-append :
    (xs ys : List Text)
    → Distinct xs
    → Distinct ys
    → ((id : Text) → contains ys id ≡ true → contains xs id ≡ false)
    → Distinct (xs ++ ys)
Distinct-append [] ys d e f = e
Distinct-append (x ∷ xs) ys d e f = (
  contains-append xs ys x ∙ elim (Bool-cases (contains ys x)) [
    | inl c ↦ absurd (ground (arith, f x c))
    | inr c ↦ ground (arith, c, d.0)
  ],
  Distinct-append xs ys d.1 e λ id c. ground (arith, f id c),
)

-- A pass and a removal that succeed leave items and pending ids that are distinct together.
next_snapshot-Distinct :
    (nfc : Text → Text) (ports : Ports) (cfg : Config) (retry_failed : Bool) (os : Os) (db db' : Db)
    (summary : Summary) (current : List SnapshotItem) (p : List Text)
    → (sync_once nfc ports cfg retry_failed db).0 ≡ ok (summary, current)
    → (reconcile os (clean cfg.paths.music) ports.fault cfg.removal_policy db' current []).0 ≡ ok p
    → Distinct (ids (next_snapshot current p))
next_snapshot-Distinct nfc ports cfg retry_failed os db db' summary current p h k =
    let s =
      reconcile-Sublist os (clean cfg.paths.music) ports.fault cfg.removal_policy db' current p k in
    rw ids-next_snapshot (
      Distinct-append (ids current) p
        (sync_once-counts nfc ports cfg retry_failed db summary current h).0 s.distinct
        λ id c.
          ground
            (arith, s.within id c, (contains-diff_snapshot kind_tracks current db'.snapshots id).0))

-- When the pass returns `current`, the removal returns `p` and no statement of the refresh fails, the
-- cycle succeeds and leaves the snapshot `current` with one item for each id of `p` behind it. So the
-- next run lists an id as removed exactly when it is one of these and is then no favorite: a removal
-- that failed is listed, and tried, again.
pub execute_sync-retries :
    (nfc : Text → Text) (ports : Ports) (cfg : Config) (retry_failed : Bool) (os : Os) (db db' : Db)
    (summary : Summary) (current : List SnapshotItem) (p : List Text) (log : Log)
    → sync_once nfc ports cfg retry_failed db ≡ (ok (summary, current), db')
    → reconcile os (clean cfg.paths.music) ports.fault cfg.removal_policy db' current []
      ≡ (ok p, log)
    → ports.fault replace_rows ≡ none
    → (later : Db) × (execute_sync nfc ports cfg retry_failed os db
        ≡ record { answer = ok tt; db = later; log = log })
      × (rows kind_tracks later.snapshots ≡ next_snapshot current p)
      × ((next : List SnapshotItem) (id : Text)
          → contains (diff_snapshot kind_tracks next later.snapshots).removed id
            ≡ ((contains (ids current) id || contains p id) && not (contains (ids next) id)))
unfolding execute_sync
execute_sync-retries nfc ports cfg retry_failed os db db' summary current p log h k f =
    let d =
      next_snapshot-Distinct nfc ports cfg retry_failed os db db' summary current p (rw h) (rw k) in
    elim (rows-replace_snapshot kind_tracks (next_snapshot current p) db'.snapshots) [
      | inr (twice, e) ↦ absurd (twice d)
      | inl (d', snapshots, e, stored) ↦ (
        record db' { snapshots = snapshots },
        rw (h, k, f, e, after_pass, refresh, query, replaced) refl,
        stored,
        λ next id.
            (contains-diff_snapshot kind_tracks next snapshots id).0
            ∙ rw (stored, ids-next_snapshot, contains-append) refl,
      )
    ]
