-- ===== src/Sync/Engine/Totals.antt =====
-- What a pass reports: the counters, and the items of the snapshot.
use mathlib.Core.Path.{subst}
use tidal_syncer.Shared.{
  ℕ, suc, ◌+◌, ◌≤◌, ◌<◌, Bool, false, inl, inr, Option, none, some, List, [], ◌∷◌, Text, text_eq,
  nat_eq, contains, All, length, arith, ◌≡◌, refl,
}
use tidal_syncer.Shared.Map.{Map}
use tidal_syncer.Shared.Decimal.{itoa, itoa-injective}
use tidal_syncer.Failure.{Error, Result, ok, err}
use tidal_syncer.Tidal.Dto.{Track}
use tidal_syncer.Config.Types.{Config}
use tidal_syncer.Store.Rows.{Distinct}
use tidal_syncer.Store.Db.{Db}
use tidal_syncer.Store.Tracks.{Tracks}
use tidal_syncer.Store.Snapshot.{SnapshotItem, ids}
use tidal_syncer.Sync.Ports.{Ports}
use tidal_syncer.Sync.Process.{Run}
use tidal_syncer.Sync.Process.Outcome.{total, total-process_track}
use tidal_syncer.Sync.Enumerate.Order.{IsAscending, enumerate-IsAscending}
use tidal_syncer.Sync.Engine.{
  Summary, backfill_genres, gate, work, run_workers, group_error, download_all, snapshot_items,
  start, finish_pass, enumerated, validated, sync_once,
}

module _ (nfc : Text → Text) (ports : Ports) (cfg : Config) (retry_failed : Bool) where
  work-total :
      (t : Track) (g : Result (Unit {0})) (s : Run × Option Error)
      → total (work nfc ports cfg retry_failed t g s).0 ≤ suc (total s.0)
  work-total t (err e) (r, failure) = omega arith
  work-total t (ok u) (r, failure) = elim (total-process_track nfc ports cfg retry_failed t r) [
    | inl e ↦ omega (arith, e)
    | inr (e, same) ↦ omega (arith, e)
  ]

  run_workers-total :
      (tracks : List Track) (s : Run × Option Error)
      → total (run_workers nfc ports cfg retry_failed tracks s).0 ≤ total s.0 + length tracks
  unfolding run_workers
  run_workers-total [] s = omega arith
  run_workers-total (t ∷ tracks) s = omega (
    arith,
    run_workers-total tracks (work nfc ports cfg retry_failed t (gate ports t.id) s),
    work-total t (gate ports t.id) s,
  )

  ids-absent :
      (dates : Map ℕ Text) (id : ℕ) (ts : List Track)
      → All (λ u. id < u.id) ts
      → contains (ids (snapshot_items nfc ports cfg retry_failed ts dates)) (itoa id) ≡ false
  unfolding snapshot_items
  ids-absent dates id [] h = refl
  ids-absent dates id (t ∷ ts) h =
      ground (arith, itoa-injective id t.id, h.0, ids-absent dates id ts h.1)

  ids-Distinct :
      (dates : Map ℕ Text) (ts : List Track)
      → IsAscending ts
      → Distinct (ids (snapshot_items nfc ports cfg retry_failed ts dates))
  unfolding snapshot_items
  ids-Distinct dates [] h = tt
  ids-Distinct dates (t ∷ ts) h = (ids-absent dates t.id ts h.0, ids-Distinct dates ts h.1)

  length-snapshot_items :
      (dates : Map ℕ Text) (ts : List Track)
      → length (snapshot_items nfc ports cfg retry_failed ts dates) ≡ length ts
  unfolding snapshot_items
  length-snapshot_items dates [] = refl
  length-snapshot_items dates (t ∷ ts) = omega (arith, length-snapshot_items dates ts)

  -- What holds of the answer of a pass.
  Sound : Result (Summary × List SnapshotItem) → Type 0
  Sound (ok (summary, items)) =
      Distinct (ids items) × (summary.downloaded + summary.skipped + summary.failed ≤ length items)
  Sound (err e) = Unit

  finish_pass-Sound :
      (db : Db) (ts : List Track) (dates : Map ℕ Text) (w : Result (Unit {0}) × Run)
      → IsAscending ts
      → total w.1 ≤ length ts
      → Sound (finish_pass nfc ports cfg retry_failed db (ts, dates) w).0
  unfolding finish_pass Sound
  finish_pass-Sound db ts dates (err e, w) a b = tt
  finish_pass-Sound db ts dates (ok v, w) a b =
      (ids-Distinct dates ts a, omega (arith, b, length-snapshot_items dates ts))

  group_error-total :
      (s : Run × Option Error) → total (group_error nfc ports cfg retry_failed s).1 ≡ total s.0
  unfolding group_error
  group_error-total (r, some e) = refl
  group_error-total (r, none) = refl

  download_all-total :
      (ts : List Track) (tracks : Tracks)
      → total
          (download_all nfc ports cfg retry_failed ts (start nfc ports cfg retry_failed tracks)).1
        ≤ length ts
  unfolding download_all
  download_all-total ts tracks =
      let begun : Run × Option Error = (start nfc ports cfg retry_failed tracks, none) in
      omega (
        arith,
        group_error-total (run_workers nfc ports cfg retry_failed ts begun),
        run_workers-total ts begun,
      )

  enumerated-Sound :
      (db : Db) (r : Result (List Track × Map ℕ Text))
      → ((ts : List Track) (dates : Map ℕ Text) → r ≡ ok (ts, dates) → IsAscending ts)
      → Sound (enumerated nfc ports cfg retry_failed db r).0
  unfolding enumerated Sound
  enumerated-Sound db (err e) a = tt
  enumerated-Sound db (ok (ts, dates)) a =
      finish_pass-Sound db ts dates _ (a ts dates refl) (download_all-total ts db.tracks)

  validated-Sound :
      (r : Result Text) (db : Db) → Sound (validated nfc ports cfg retry_failed r db).0
  unfolding validated Sound
  validated-Sound (err e) db = tt
  validated-Sound (ok user) db =
      let filled = backfill_genres ports db.tracks in
      enumerated-Sound _ _ (λ ts dates e.
        enumerate-IsAscending nfc ports cfg retry_failed filled db.collections ts dates e)

  sync_once-Sound : (db : Db) → Sound (sync_once nfc ports cfg retry_failed db).0
  unfolding sync_once
  sync_once-Sound db = validated-Sound ports.user_id db

-- A pass that succeeds returns snapshot items with distinct ids, and its three counters together count
-- no more tracks than there are items.
pub sync_once-counts :
    (nfc : Text → Text) (ports : Ports) (cfg : Config) (retry_failed : Bool) (db : Db)
    (summary : Summary) (items : List SnapshotItem)
    → (sync_once nfc ports cfg retry_failed db).0 ≡ ok (summary, items)
    → Distinct (ids items) × (summary.downloaded + summary.skipped + summary.failed ≤ length items)
unfolding Sound
sync_once-counts nfc ports cfg retry_failed db summary items h =
    subst (Sound nfc ports cfg retry_failed) h (sync_once-Sound nfc ports cfg retry_failed db)
