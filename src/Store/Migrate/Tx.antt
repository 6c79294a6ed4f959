-- ===== src/Store/Migrate/Tx.antt =====
-- One migration: what its transaction leaves, and when it is left out.
use mathlib.Core.Path.{subst}
use tidal_syncer.Shared.{
  ℕ, Bool, true, false, Bool-cases, Option, none, some, inl, inr, Text, nat_eq, contains, arith,
  ◌≡◌, refl,
}
use tidal_syncer.Failure.{Error, Result, ok, err, ◌>>=◌, ◌>>◌, >>=-eq-ok}
use tidal_syncer.Store.Migrate.{
  Catalog, Faults, call, committed, begun, with_immediate_tx, migration_version, migration_applied,
  recorded, apply_unless, run_migration, unless_applied, check_migration,
}

-- A transaction is done as a whole or not at all.
pub data Tx (fn : Catalog → Result Catalog) (db : Catalog)
    : Result (Unit {0}) × Catalog → Type 0 where
  done : (after : Catalog) → fn db ≡ ok after → Tx fn db (ok tt, after)
  rolled_back : (e : Error) → Tx fn db (err e, db)

committed-Tx :
    (fn : Catalog → Result Catalog) (db : Catalog) (o : Option Error) (r : Result Catalog)
    → fn db ≡ r
    → Tx fn db (committed db o r)
committed-Tx fn db o (err e) h = rolled_back e
committed-Tx fn db (some e) (ok after) h = rolled_back e
committed-Tx fn db none (ok after) h = done after h

begun-Tx :
    (fn : Catalog → Result Catalog) (db : Catalog) (commit : Option Error) (r : Result (Unit {0}))
    → Tx fn db (begun db commit r fn)
begun-Tx fn db commit (err e) = rolled_back e
begun-Tx fn db commit (ok u) = committed-Tx fn db commit (fn db) refl

pub with_immediate_tx-Tx :
    (conn begin commit : Option Error) (fn : Catalog → Result Catalog) (db : Catalog)
    → Tx fn db (with_immediate_tx conn begin commit fn db)
unfolding with_immediate_tx
with_immediate_tx-Tx conn begin commit fn db = begun-Tx fn db commit (do call conn; call begin)

-- A migration fails and changes nothing, or is recorded already, or is executed and recorded.
pub data Ran (version : ℕ) (ddl : Text) (db : Catalog) : Result (Unit {0}) × Catalog → Type 0 where
  failed : (e : Error) → Ran version ddl db (err e, db)
  skipped : contains db.versions version ≡ true → Ran version ddl db (ok tt, db)
  added : contains db.versions version ≡ false → Ran version ddl db (ok tt, recorded version ddl db)

migration_applied-eq-ok :
    (fault : Option Error) (version : ℕ) (db : Catalog) (b : Bool)
    → migration_applied fault version db ≡ ok b
    → (contains db.versions version ≡ b) × (db.table ≡ true)
unfolding migration_applied
migration_applied-eq-ok none version db b h = elim (Bool-cases db.table) [
  | inl t ↦ ground (arith, h, t)
  | inr t ↦ ground (arith, h, t)
]
migration_applied-eq-ok (some e) version db b h = cc

both_called :
    (o p : Option Error) (db after : Catalog) → (do call o; call p; ok db) ≡ ok after → db ≡ after
both_called (some e) p db after h = cc
both_called none (some e) db after h = cc
both_called none none db after h = cc

apply_unless-Ran :
    (faults : Faults) (version : ℕ) (ddl : Text) (db after : Catalog) (b : Bool)
    → contains db.versions version ≡ b
    → apply_unless faults version ddl db b ≡ ok after
    → Ran version ddl db (ok tt, after)
apply_unless-Ran faults version ddl db after true c h =
    let same : db ≡ after = cc in subst (λ a. Ran version ddl db (ok tt, a)) same (skipped c)
apply_unless-Ran faults version ddl db after false c h =
    subst (λ a. Ran version ddl db (ok tt, a))
      (both_called faults.exec faults.insert (recorded version ddl db) after h) (added c)

Tx-Ran :
    (faults : Faults) (version : ℕ) (ddl : Text) (db : Catalog) (r : Result (Unit {0}) × Catalog)
    → Tx
        (λ db. do
          applied ← migration_applied faults.recheck version db
          apply_unless faults version ddl db applied)
        db
        r
    → Ran version ddl db r
Tx-Ran faults version ddl db r (rolled_back e) = failed e
Tx-Ran faults version ddl db r (done after h) =
    let (b, m, a) =
      >>=-eq-ok (migration_applied faults.recheck version db) (apply_unless faults version ddl db)
        h in
    apply_unless-Ran faults version ddl db after b
      (migration_applied-eq-ok faults.recheck version db b m).0 a

-- `runMigration` in full.
pub run_migration-Ran :
    (faults : Faults) (version : ℕ) (ddl : Text) (db : Catalog)
    → Ran version ddl db (run_migration faults version ddl db)
unfolding run_migration
run_migration-Ran faults version ddl db =
    Tx-Ran faults version ddl db _
      (with_immediate_tx-Tx faults.conn faults.begin faults.commit _ db)

-- What the check in front of the transaction tells.
pub data Checked (name : Text) (db : Catalog) : Result (Option ℕ) → Type 0 where
  refused : (e : Error) → Checked name db (err e)
  present :
      (version : ℕ)
      → migration_version name ≡ ok version
      → contains db.versions version ≡ true
      → Checked name db (ok none)
  absent :
      (version : ℕ)
      → migration_version name ≡ ok version
      → contains db.versions version ≡ false
      → Checked name db (ok (some version))

Bool-Checked :
    (faults : Faults) (name : Text) (db : Catalog) (version : ℕ) (b : Bool)
    → migration_version name ≡ ok version
    → contains db.versions version ≡ b
    → Checked name db (unless_applied faults version b)
Bool-Checked faults name db version true v c = present version v c
Bool-Checked faults name db version false v c = go faults.read
  where
    go : (o : Option Error) → Checked name db (do call o; ok (some version))
    go none = absent version v c
    go (some e) = refused e

applied-Checked :
    (faults : Faults) (name : Text) (db : Catalog) (version : ℕ) (r : Result Bool)
    → migration_version name ≡ ok version
    → migration_applied faults.check version db ≡ r
    → Checked name db (do applied ← r; unless_applied faults version applied)
applied-Checked faults name db version (err e) v m = refused e
applied-Checked faults name db version (ok b) v m =
    Bool-Checked faults name db version b v (migration_applied-eq-ok faults.check version db b m).0

version-Checked :
    (faults : Faults) (name : Text) (db : Catalog) (r : Result ℕ)
    → migration_version name ≡ r
    → Checked name db (do
      version ← r
      applied ← migration_applied faults.check version db
      unless_applied faults version applied)
version-Checked faults name db (err e) v = refused e
version-Checked faults name db (ok version) v =
    applied-Checked faults name db version (migration_applied faults.check version db) v refl

pub check_migration-Checked :
    (faults : Faults) (name : Text) (db : Catalog)
    → Checked name db (check_migration faults name db)
unfolding check_migration
check_migration-Checked faults name db =
    version-Checked faults name db (migration_version name) refl
