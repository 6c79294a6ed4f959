-- ===== src/Cycle/Export/Locked.antt =====
-- A run while another process holds the lock.
use tidal_syncer.Shared.{Bool-cases, Option, none, some, inl, inr, [], ◌∷◌, ◌≡◌, refl}
use tidal_syncer.Failure.{Error, locked, would_block, is, Result, ok, err}
use tidal_syncer.Config.Types.{Config}
use tidal_syncer.Store.Db.{Db}
use tidal_syncer.Store.Migrate.{Catalog}
use tidal_syncer.Download.Sweep.{Files}
use tidal_syncer.Cycle.Export.{
  LockFile, unlocked, flocked, try_acquire, State, Host, contended, acquired, migrated, opened,
  logging, loaded, run_sync,
}

-- The run answers an error, and the rows and the files are those of the start.
abbrev pub Idles : State → Result (Unit {0}) × State → Type 0
Idles s (answer, after) =
    (e : Error) × (answer ≡ err e) × (after.db ≡ s.db) × (after.files ≡ s.files)

try_acquire-err :
    (l : LockFile) (e : Error) → l.flock ≡ some e → (x : Error) × (try_acquire l ≡ err x)
unfolding try_acquire
try_acquire-err l e h = go l.open_file l.close
  where
    closing : (c : Option Error) → (x : Error) × (unlocked e c ≡ err x)
    closing (some c) = (_, refl)
    closing none = elim (Bool-cases (is e would_block)) [
      | inl busy ↦ (locked ∷ [], rw busy refl)
      | inr other ↦ (e, rw other refl)
    ]

    go :
        (o c : Option Error)
        → (x : Error) × (elim o [ some y ↦ err y | none ↦ flocked l.flock c ] ≡ err x)
    go (some y) c = (y, refl)
    go none c = rw h (closing c)

module _ (host : Host) (cycle : Config → Db → Files → Result (Unit {0}) × Db × Files)
    (s : State) where
  migrated-Idles :
      (cfg : Config) (x : Error) (r : Result (Unit {0}) × Catalog)
      → try_acquire host.lock_file ≡ err x
      → Idles s (migrated host cycle cfg s r)
  unfolding migrated acquired
  migrated-Idles cfg x (err e, catalog) h = (e, refl, refl, refl)
  migrated-Idles cfg x (ok u, catalog) h = rw h (contended host cycle x, refl, refl, refl)

  opened-Idles :
      (cfg : Config) (x : Error) (r : Result (Unit {0}))
      → try_acquire host.lock_file ≡ err x
      → Idles s (opened host cycle cfg s r)
  unfolding opened
  opened-Idles cfg x (err e) h = (e, refl, refl, refl)
  opened-Idles cfg x (ok u) h = migrated-Idles cfg x _ h

  logging-Idles :
      (cfg : Config) (x : Error) (r : Result (Unit {0}))
      → try_acquire host.lock_file ≡ err x
      → Idles s (logging host cycle cfg s r)
  unfolding logging
  logging-Idles cfg x (err e) h = (e, refl, refl, refl)
  logging-Idles cfg x (ok u) h = opened-Idles cfg x host.open_store h

  loaded-Idles :
      (x : Error) (r : Result Config)
      → try_acquire host.lock_file ≡ err x
      → Idles s (loaded host cycle s r)
  unfolding loaded
  loaded-Idles x (err e) h = (e, refl, refl, refl)
  loaded-Idles x (ok cfg) h = logging-Idles cfg x host.logger h

-- A run that does not get the lock, since `flock` fails, runs no cycle and sweeps nothing: whatever the
-- cycle would do, it answers an error and leaves the rows and the files as they are.
pub run_sync-Idles :
    (host : Host) (cycle : Config → Db → Files → Result (Unit {0}) × Db × Files) (s : State)
    (e : Error)
    → host.lock_file.flock ≡ some e
    → Idles s (run_sync host cycle s)
unfolding run_sync
run_sync-Idles host cycle s e h =
    let (x, refused) = try_acquire-err host.lock_file e h in
    loaded-Idles host cycle s x host.load refused
