-- ===== src/Store/Migrate.antt =====
-- internal/store/store.go, `Migrate`: the embedded migrations, each applied in a write transaction of
-- its own. An `int` is its two's complement below 2 ^ 64.
pub mod Tx
pub mod Twice
pub mod Race
use tidal_syncer.Shared.{
  ℕ, ◌+◌, ◌-◌, ◌*◌, ◌%◌, ◌^◌, Bool, true, false, not, ◌&&◌, ◌||◌, Option, none, some, List, [], ◌∷◌,
  ◌++◌, Text, codes, nat_eq, ◌==◌, contains, ltb, leb, if◌then◌else◌,
}
use tidal_syncer.Failure.{Error, bad_migration_name, plain, Result, ok, err, ◌>>=◌, ◌>>◌}
use tidal_syncer.Strconv.{atoi}
use tidal_syncer.Store.Open.{tighten_db_file_perms}

-- The table `schema_migrations`, if it is there, and the migrations executed so far, in their order.
pub record Catalog : Type 0 where
  pub table : Bool
  pub versions : List ℕ
  pub executed : List Text

-- A file of the migrations directory.
pub record File : Type 0 where
  pub name : Text
  pub ddl : Text

-- The errors of the statements and calls around one migration.
pub record Faults : Type 0 where
  pub check : Option Error
  pub read : Option Error
  pub conn : Option Error
  pub begin : Option Error
  pub recheck : Option Error
  pub exec : Option Error
  pub insert : Option Error
  pub commit : Option Error

-- A call whose only answer is an error.
abbrev pub call : Option Error → Result (Unit {0})
call none = ok tt
call (some e) = err e

-- What stands before the first '_', if there is one.
abbrev up_to : Option Text → ℕ → Option Text
up_to none c = none
up_to (some s) c = some (c ∷ s)

unfoldable pub prefix : Text → Option Text
prefix [] = none
prefix (c ∷ s) = let rest = prefix s in if c == b'_' then some [] else up_to rest c

-- An index of the separator that is not above 0 is refused.
abbrev version_of : Option Text → Result ℕ
unfolding atoi
version_of none = err (bad_migration_name ∷ [])
version_of (some []) = err (bad_migration_name ∷ [])
version_of (some (c ∷ s)) = atoi (c ∷ s)

unfoldable pub migration_version : Text → Result ℕ
unfolding prefix version_of
migration_version name = version_of (prefix name)

-- `migrationApplied`, on the pool or within a transaction; it fails without the table.
unfoldable pub migration_applied : Option Error → ℕ → Catalog → Result Bool
migration_applied fault version db = do
  call fault
  if db.table then ok (contains db.versions version) else err (plain ∷ [])

-- What a transaction leaves, and its answer: on an error all that it did is rolled back.
abbrev pub committed : Catalog → Option Error → Result Catalog → Result (Unit {0}) × Catalog
committed before fault (err e) = (err e, before)
committed before (some e) (ok after) = (err e, before)
committed before none (ok after) = (ok tt, after)

abbrev pub begun :
    Catalog
    → Option Error
    → Result (Unit {0})
    → (Catalog → Result Catalog)
    → Result (Unit {0}) × Catalog
begun before commit (err e) fn = (err e, before)
begun before commit (ok u) fn = committed before commit (fn before)

unfoldable pub with_immediate_tx :
    Option Error
    → Option Error
    → Option Error
    → (Catalog → Result Catalog)
    → Catalog
    → Result (Unit {0}) × Catalog
with_immediate_tx conn begin commit fn db = begun db commit (do call conn; call begin) fn

unfoldable pub ensure_migrations_table : Faults → Catalog → Result (Unit {0}) × Catalog
unfolding with_immediate_tx
ensure_migrations_table faults =
    with_immediate_tx faults.conn faults.begin faults.commit
      (λ db. do call faults.exec; ok (record db { table = true }))

abbrev pub recorded : ℕ → Text → Catalog → Catalog
recorded version ddl db = record db {
  versions = db.versions ++ version ∷ [];
  executed = db.executed ++ ddl ∷ [];
}

abbrev pub apply_unless : Faults → ℕ → Text → Catalog → Bool → Result Catalog
apply_unless faults version ddl db true = ok db
apply_unless faults version ddl db false = do
  call faults.exec
  call faults.insert
  ok (recorded version ddl db)

unfoldable pub run_migration : Faults → ℕ → Text → Catalog → Result (Unit {0}) × Catalog
unfolding with_immediate_tx migration_applied
run_migration faults version ddl = with_immediate_tx faults.conn faults.begin faults.commit λ db. do
  applied ← migration_applied faults.recheck version db
  apply_unless faults version ddl db applied

-- `applyMigration` up to its transaction: whether there is one, and for which version.
abbrev pub unless_applied : Faults → ℕ → Bool → Result (Option ℕ)
unless_applied faults version true = ok none
unless_applied faults version false = do call faults.read; ok (some version)

unfoldable pub check_migration : Faults → Text → Catalog → Result (Option ℕ)
unfolding migration_version migration_applied
check_migration faults name db = do
  version ← migration_version name
  applied ← migration_applied faults.check version db
  unless_applied faults version applied

unfoldable pub checked : Faults → Text → Catalog → Result (Option ℕ) → Result (Unit {0}) × Catalog
unfolding run_migration
checked faults ddl db (err e) = (err e, db)
checked faults ddl db (ok none) = (ok tt, db)
checked faults ddl db (ok (some version)) = run_migration faults version ddl db

-- `applyMigration`, with no other process in between.
unfoldable pub apply_migration : Faults → File → Catalog → Result (Unit {0}) × Catalog
unfolding check_migration checked
apply_migration faults f db = checked faults f.ddl db (check_migration faults f.name db)

abbrev pub before :
    Result (Unit {0}) × Catalog
    → (Catalog → Result (Unit {0}) × Catalog)
    → Result (Unit {0}) × Catalog
before (err e, db) next = (err e, db)
before (ok u, db) next = next db

-- The loop over the files, with the faults of each.
unfoldable pub apply_all : (Text → Faults) → List File → Catalog → Result (Unit {0}) × Catalog
unfolding apply_migration
apply_all faults [] db = (ok tt, db)
apply_all faults (f ∷ fs) db = before (apply_migration (faults f.name) f db) (apply_all faults fs)

-- `Migrate`: `ensure` are the faults around the table, `chmod` the answer to the tightened permissions.
unfoldable pub migrate :
    Faults → (Text → Faults) → Option Error → List File → Catalog → Result (Unit {0}) × Catalog
unfolding ensure_migrations_table apply_all tighten_db_file_perms
migrate ensure faults chmod files db =
    before (ensure_migrations_table ensure db)
      λ db1. before (apply_all faults files db1) λ db2. (tighten_db_file_perms chmod, db2)
