-- ===== src/Download/Atomic.antt =====
-- pkg/tidal/download/download.go, `writeAtomic` and `syncDir`: a file is filled under a temporary name
-- beside its destination, and renamed when it is complete.
pub mod Commit
pub mod PartName
use tidal_syncer.Shared.{
  ℕ, ◌-◌, ◌<◌, Option, none, some, List, [], ◌∷◌, ◌++◌, Text, take, length, ltb, if◌then◌else◌,
}
use tidal_syncer.Shared.Map.{insert, erase}
use tidal_syncer.Failure.{Error, not_exist, is, Result, ok, err}
use tidal_syncer.Files.Path.{FilePath, path_eq, dir}
use tidal_syncer.Download.Stream.{classify_io_err}
use tidal_syncer.Download.Sweep.{Files, part_suffix, base}

-- What a producer returns, with the files behind it: the bytes that it wrote, or its error.
abbrev pub Producer : Type 0
Producer = Files → Result Text × Files

-- The answers of the calls for one temporary file, and the random field of its name. `partial` is what
-- a producer that failed has left in the file.
pub record Disk : Type 0 where
  pub random : Text
  pub create : Option Error
  pub chmod : Option Error
  pub sync : Option Error
  pub rename : Option Error
  pub remove : Option Error
  pub open_dir : Option Error
  pub sync_dir : Option Error
  pub partial : Text

-- `maxComponentBytes` and `partNameOverhead`
abbrev pub max_component_bytes : ℕ
max_component_bytes = 255

abbrev pub part_name_overhead : ℕ
part_name_overhead = 24

-- The name of the part file: the base, cut so that the name fits, between a dot and a random field.
unfoldable pub part_name : Text → Text → Text
part_name name random =
    let limit = max_component_bytes - part_name_overhead in
    let cut = if ltb limit (length name) then take limit name else name in
    b'.' ∷ (cut ++ b'.' ∷ (random ++ part_suffix))

abbrev pub beside : FilePath → Text → FilePath
beside p name = record p { parts = (dir p).parts ++ name ∷ [] }

unfoldable pub part_path : FilePath → Text → FilePath
unfolding part_name base
part_path dest random = beside dest (part_name (base dest) random)

-- The deferred removal, whose own error is dropped.
unfoldable pub removed : Option Error → FilePath → Files → Files
removed none path files = erase path files
removed (some e) path files = files

unless_missing : Error → Result (Unit {0})
unless_missing e = if is e not_exist then ok tt else err e

unfoldable pub sync_dir : Disk → Result (Unit {0})
unfolding unless_missing
sync_dir disk = elim disk.open_dir [
  | some e ↦ unless_missing e
  | none ↦ elim disk.sync_dir [ some e ↦ err (classify_io_err e) | none ↦ ok tt ]
]

module _ (disk : Disk) (dest : FilePath) where
  -- From the rename on, with the part file complete and flushed.
  renamed : FilePath → Text → Option Error → Files → Result (Unit {0}) × Files
  unfolding removed sync_dir
  renamed part bytes (some e) files = (err e, removed disk.remove part files)
  renamed part bytes none files = (sync_dir disk, insert dest bytes (erase part files))

  synced : FilePath → Text → Option Error → Files → Result (Unit {0}) × Files
  unfolding renamed
  synced part bytes (some e) files = (err (classify_io_err e), removed disk.remove part files)
  synced part bytes none files = renamed part bytes disk.rename files

  produced : FilePath → Result Text × Files → Result (Unit {0}) × Files
  unfolding synced
  produced part (err e, files) = (err e, removed disk.remove part (insert part disk.partial files))
  produced part (ok bytes, files) = synced part bytes disk.sync (insert part bytes files)

  chmodded : FilePath → Producer → Option Error → Files → Result (Unit {0}) × Files
  unfolding produced
  chmodded part produce (some e) files = (err e, removed disk.remove part files)
  chmodded part produce none files = produced part (produce files)

  created : FilePath → Producer → Option Error → Files → Result (Unit {0}) × Files
  unfolding chmodded
  created part produce (some e) files = (err e, files)
  created part produce none files = chmodded part produce disk.chmod (insert part [] files)

  unfoldable pub write_atomic : Producer → Files → Result (Unit {0}) × Files
  unfolding created part_path
  write_atomic produce files = created (part_path dest disk.random) produce disk.create files
