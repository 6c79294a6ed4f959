-- ===== src/Store/Migrate/Race.antt =====
-- Several processes that migrate the same database. A step of one of them is one access to the
-- database: the check in front of a transaction, or the transaction. A schedule is a list of steps.
pub mod Once
use tidal_syncer.Shared.{ℕ, Option, none, some, List, [], ◌∷◌, nat_eq, ◌==◌, Text, if◌then◌else◌}
use tidal_syncer.Failure.{Error, Result, ok, err}
use tidal_syncer.Store.Migrate.{Catalog, File, Faults, check_migration, run_migration}

-- Where a process stands in the loop of `Migrate`: before a file, between the check that has found a
-- version missing and its transaction, or behind an error.
pub data Pc : Type 0 where
  at_files : List File → Pc
  in_between : ℕ → Text → List File → Pc
  stopped : Pc

abbrev pub checked_step : File → List File → Result (Option ℕ) → Pc
checked_step f fs (err e) = stopped
checked_step f fs (ok none) = at_files fs
checked_step f fs (ok (some version)) = in_between version f.ddl fs

abbrev pub ran_step : List File → Result (Unit {0}) × Catalog → Pc × Catalog
ran_step fs (err e, db) = (stopped, db)
ran_step fs (ok u, db) = (at_files fs, db)

unfoldable pub advance : Faults → Pc → Catalog → Pc × Catalog
unfolding check_migration run_migration
advance faults (at_files []) db = (at_files [], db)
advance faults (at_files (f ∷ fs)) db = (checked_step f fs (check_migration faults f.name db), db)
advance faults (in_between version ddl fs) db = ran_step fs (run_migration faults version ddl db)
advance faults stopped db = (stopped, db)

pub record System : Type 0 where
  pub db : Catalog
  pub pc : ℕ → Pc

-- Process `i` takes a step.
unfoldable pub step : ℕ → Faults → System → System
unfolding advance
step i faults s =
    let (p, db) = advance faults (s.pc i) s.db in
    record { db = db; pc = λ j. if j == i then p else s.pc j }

unfoldable pub run : List (ℕ × Faults) → System → System
unfolding step
run [] s = s
run ((i, faults) ∷ schedule) s = run schedule (step i faults s)

-- Every process begins with all files.
unfoldable pub start : List File → Catalog → System
start files db = record { db = db; pc = λ i. at_files files }
