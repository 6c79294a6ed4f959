-- ===== src/Store/Migrate/Twice.antt =====
-- What a successful run leaves, and what a second one does.
use mathlib.Core.Path.{subst}
use tidal_syncer.Shared.{
  ℕ, true, false, Option, none, some, List, [], ◌∷◌, ◌++◌, All, Text, nat_eq, contains, arith, ◌≡◌,
  refl, ◌∙◌, sym, ap,
}
use tidal_syncer.Failure.{Error, Result, ok, err, ◌>>◌}
use tidal_syncer.Store.Open.{tighten_db_file_perms}
use tidal_syncer.Store.Migrate.{
  Catalog, File, Faults, migration_version, recorded, checked, apply_migration, before, apply_all,
  ensure_migrations_table, migrate, call,
}
use tidal_syncer.Store.Migrate.Tx.{
  Tx, done, rolled_back, with_immediate_tx-Tx, Ran, failed, skipped, added, run_migration-Ran,
  Checked, refused, present, absent, check_migration-Checked,
}

-- One file: an error and no change, or its version is there, or it is executed and recorded.
pub data Applied (f : File) (db : Catalog) : Result (Unit {0}) × Catalog → Type 0 where
  stopped : (e : Error) → Applied f db (err e, db)
  had :
      (v : ℕ)
      → migration_version f.name ≡ ok v
      → contains db.versions v ≡ true
      → Applied f db (ok tt, db)
  new :
      (v : ℕ)
      → migration_version f.name ≡ ok v
      → contains db.versions v ≡ false
      → Applied f db (ok tt, recorded v f.ddl db)

Ran-Applied :
    (f : File) (db : Catalog) (v : ℕ) (r : Result (Unit {0}) × Catalog)
    → migration_version f.name ≡ ok v
    → Ran v f.ddl db r
    → Applied f db r
Ran-Applied f db v r h (failed e) = stopped e
Ran-Applied f db v r h (skipped c) = had v h c
Ran-Applied f db v r h (added c) = new v h c

checked-Applied :
    (faults : Faults) (f : File) (db : Catalog) (r : Result (Option ℕ))
    → Checked f.name db r
    → Applied f db (checked faults f.ddl db r)
unfolding checked
checked-Applied faults f db r (refused e) = stopped e
checked-Applied faults f db r (present v h c) = had v h c
checked-Applied faults f db r (absent v h c) =
    Ran-Applied f db v _ h (run_migration-Ran faults v f.ddl db)

pub apply_migration-Applied :
    (faults : Faults) (f : File) (db : Catalog) → Applied f db (apply_migration faults f db)
unfolding apply_migration
apply_migration-Applied faults f db =
    checked-Applied faults f db _ (check_migration-Checked faults f.name db)

abbrev pub IsRecorded : Catalog → File → Type 0
IsRecorded db f = (v : ℕ) × (migration_version f.name ≡ ok v) × (contains db.versions v ≡ true)

contains-append : (xs ys : List ℕ) (v : ℕ) → contains xs v ≡ true → contains (xs ++ ys) v ≡ true
unfolding nat_eq
contains-append [] ys v h = cc
contains-append (x ∷ xs) ys v h = ground (arith, h, contains-append xs ys v)

contains-append_self : (xs : List ℕ) (v : ℕ) → contains (xs ++ v ∷ []) v ≡ true
unfolding nat_eq
contains-append_self [] v = ground arith
contains-append_self (x ∷ xs) v = ground (arith, contains-append_self xs v)

-- The table stays, and so does every version in it.
abbrev Grows : Catalog → Catalog → Type 0
Grows db after =
    (after.table ≡ db.table)
    × ((v : ℕ) → contains db.versions v ≡ true → contains after.versions v ≡ true)

IsRecorded-Grows :
    (db after : Catalog) (f : File) → Grows db after → IsRecorded db f → IsRecorded after f
IsRecorded-Grows db after f g (v, h, c) = (v, h, g.1 v c)

-- Of an answer without an error.
Leaves : (Catalog → Type 0) → Result (Unit {0}) × Catalog → Type 0
Leaves P (err e, db) = Unit
Leaves P (ok u, db) = P db

Applied-Leaves :
    (f : File) (db : Catalog) (r : Result (Unit {0}) × Catalog)
    → Applied f db r
    → Leaves (λ after. IsRecorded after f × Grows db after) r
unfolding Leaves
Applied-Leaves f db r (stopped e) = tt
Applied-Leaves f db r (had v h c) = ((v, h, c), (refl, λ w k. k))
Applied-Leaves f db r (new v h c) = (
  (v, h, contains-append_self db.versions v),
  (refl, λ w k. contains-append db.versions (v ∷ []) w k),
)

before-Leaves :
    (P Q : Catalog → Type 0) (r : Result (Unit {0}) × Catalog)
    (next : Catalog → Result (Unit {0}) × Catalog)
    → Leaves P r
    → ((db : Catalog) → P db → Leaves Q (next db))
    → Leaves Q (before r next)
unfolding Leaves
before-Leaves P Q (err e, db) next h k = tt
before-Leaves P Q (ok u, db) next h k = k db h

Leaves-weaken :
    (P Q : Catalog → Type 0) (r : Result (Unit {0}) × Catalog)
    → Leaves P r
    → ((db : Catalog) → P db → Q db)
    → Leaves Q r
unfolding Leaves
Leaves-weaken P Q (err e, db) h k = tt
Leaves-weaken P Q (ok u, db) h k = k db h

apply_all-Leaves :
    (faults : Text → Faults) (fs : List File) (db : Catalog)
    → Leaves (λ after. All (IsRecorded after) fs × Grows db after) (apply_all faults fs db)
unfolding apply_all Leaves
apply_all-Leaves faults [] db = (tt, (refl, λ v k. k))
apply_all-Leaves faults (f ∷ fs) db =
    before-Leaves (λ mid. IsRecorded mid f × Grows db mid)
      (λ after. All (IsRecorded after) (f ∷ fs) × Grows db after)
      (apply_migration (faults f.name) f db) (apply_all faults fs)
      (Applied-Leaves f db _ (apply_migration-Applied (faults f.name) f db))
      λ mid h.
        Leaves-weaken (λ after. All (IsRecorded after) fs × Grows mid after)
          (λ after. All (IsRecorded after) (f ∷ fs) × Grows db after) _
          (apply_all-Leaves faults fs mid)
          λ after k. (
            (IsRecorded-Grows mid after f k.1 h.0, k.0),
            (k.1.0 ∙ h.1.0, λ v c. k.1.1 v (h.1.1 v c)),
          )

-- A file whose version is there changes nothing.
Applied-same :
    (f : File) (db : Catalog) (r : Result (Unit {0}) × Catalog)
    → IsRecorded db f
    → Applied f db r
    → r.1 ≡ db
Applied-same f db r k (stopped e) = refl
Applied-same f db r k (had v h c) = refl
Applied-same f db r (v, h, c) (new w g d) =
    let same : v ≡ w = cc in
    absurd (ground (arith, c, subst (λ u. contains db.versions u ≡ false) (sym same) d))

before-same :
    (db : Catalog) (r : Result (Unit {0}) × Catalog) (next : Catalog → Result (Unit {0}) × Catalog)
    → r.1 ≡ db
    → (next db).1 ≡ db
    → (before r next).1 ≡ db
before-same db (err e, after) next h k = h
before-same db (ok u, after) next h k = rw h k

apply_all-same :
    (faults : Text → Faults) (fs : List File) (db : Catalog)
    → All (IsRecorded db) fs
    → (apply_all faults fs db).1 ≡ db
unfolding apply_all
apply_all-same faults [] db h = refl
apply_all-same faults (f ∷ fs) db h =
    before-same db (apply_migration (faults f.name) f db) (apply_all faults fs)
      (Applied-same f db _ h.0 (apply_migration-Applied (faults f.name) f db))
      (apply_all-same faults fs db h.1)

ensured-Leaves :
    (faults : Faults) (db : Catalog) (r : Result (Unit {0}) × Catalog)
    → Tx (λ db. do call faults.exec; ok (record db { table = true })) db r
    → Leaves (λ after. after.table ≡ true) r
unfolding Leaves
ensured-Leaves faults db r (rolled_back e) = tt
ensured-Leaves faults db r (done after h) = go faults.exec h
  where
    go :
        (o : Option Error)
        → (do call o; ok (record db { table = true })) ≡ ok after
        → after.table ≡ true
    go (some e) h = cc
    go none h = let same : record db { table = true } ≡ after = cc in sym (ap (λ d. d.table) same)

ensured-same :
    (faults : Faults) (db : Catalog) (r : Result (Unit {0}) × Catalog)
    → db.table ≡ true
    → Tx (λ db. do call faults.exec; ok (record db { table = true })) db r
    → r.1 ≡ db
ensured-same faults db r t (rolled_back e) = refl
ensured-same faults db r t (done after h) = go faults.exec h
  where
    go : (o : Option Error) → (do call o; ok (record db { table = true })) ≡ ok after → after ≡ db
    go (some e) h = cc
    go none h =
        let same : record db { table = true } ≡ after = cc in
        sym same ∙ ap (λ b. record db { table = b }) (sym t)

IsMigrated : List File → Catalog → Type 0
IsMigrated fs db = (db.table ≡ true) × All (IsRecorded db) fs

migrate-Leaves :
    (ensure : Faults) (faults : Text → Faults) (chmod : Option Error) (fs : List File)
    (db : Catalog)
    → Leaves (IsMigrated fs) (migrate ensure faults chmod fs db)
unfolding migrate ensure_migrations_table IsMigrated Leaves
migrate-Leaves ensure faults chmod fs db =
    before-Leaves (λ mid. mid.table ≡ true) (IsMigrated fs) _ _
      (ensured-Leaves ensure db _
        (with_immediate_tx-Tx ensure.conn ensure.begin ensure.commit _ db))
      λ mid t.
        before-Leaves (λ after. All (IsRecorded after) fs × Grows mid after) (IsMigrated fs) _ _
          (apply_all-Leaves faults fs mid)
          λ after k. go after (k.1.0 ∙ t, k.0) (tighten_db_file_perms chmod)
  where
    go :
        (after : Catalog)
        → IsMigrated fs after
        → (r : Result (Unit {0})) → Leaves (IsMigrated fs) (r, after)
    go after h (err e) = tt
    go after h (ok u) = h

migrate-same :
    (ensure : Faults) (faults : Text → Faults) (chmod : Option Error) (fs : List File)
    (db : Catalog)
    → IsMigrated fs db
    → (migrate ensure faults chmod fs db).1 ≡ db
unfolding migrate ensure_migrations_table IsMigrated
migrate-same ensure faults chmod fs db h =
    before-same db (ensure_migrations_table ensure db)
      (λ mid. before (apply_all faults fs mid) (λ last. (tighten_db_file_perms chmod, last)))
      (ensured-same ensure db _ h.0
        (with_immediate_tx-Tx ensure.conn ensure.begin ensure.commit _ db))
      (before-same db (apply_all faults fs db) (λ last. (tighten_db_file_perms chmod, last))
        (apply_all-same faults fs db h.1) refl)

-- A run of `Migrate` that succeeds leaves every migration recorded; and a second run changes nothing,
-- whatever fails in it.
pub migrate-IsIdempotent :
    (ensure ensure2 : Faults) (faults faults2 : Text → Faults) (chmod chmod2 : Option Error)
    (fs : List File) (db after : Catalog)
    → migrate ensure faults chmod fs db ≡ (ok tt, after)
    → All (IsRecorded after) fs × ((migrate ensure2 faults2 chmod2 fs after).1 ≡ after)
unfolding Leaves IsMigrated
migrate-IsIdempotent ensure ensure2 faults faults2 chmod chmod2 fs db after h =
    let m : IsMigrated fs after =
      subst (Leaves (IsMigrated fs)) h (migrate-Leaves ensure faults chmod fs db) in
    (m.1, migrate-same ensure2 faults2 chmod2 fs after m)
