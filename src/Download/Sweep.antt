-- ===== src/Download/Sweep.antt =====
-- pkg/tidal/download/sweep.go: the part files that an interrupted run has left. The files are those of
-- one volume, by their cleaned paths.
pub mod View
pub mod Laws
use mathlib.Core.List.{reverse}
use tidal_syncer.Shared.{
  ℕ, suc, Bool, not, ◌||◌, Option, none, some, List, [], ◌∷◌, ◌++◌, Text, codes, if◌then◌else◌,
}
use tidal_syncer.Shared.Map.{Map, erase}
use tidal_syncer.Failure.{Error, not_exist, is, Result, ok, err}
use tidal_syncer.Files.Path.{FilePath, path_eq}
use tidal_syncer.Manifest.Mpd.{has_prefix}

abbrev pub Files : Type 0
Files = Map FilePath Text

-- `PartSuffix`
abbrev pub part_suffix : Text
part_suffix = codes ".part"

unfoldable pub has_suffix : Text → Text → Bool
unfolding has_prefix
has_suffix s suffix = has_prefix (reverse suffix) (reverse s)

abbrev pub last_of : Bool → List Text → Text
last_of rooted [] = if rooted then codes "/" else codes "."
last_of rooted (c ∷ cs) = c

-- `filepath.Base`
unfoldable pub base : FilePath → Text
base p = last_of p.rooted (reverse p.parts)

unfoldable pub is_stale : FilePath → Bool
unfolding has_suffix base
is_stale p = has_suffix (base p) part_suffix

-- One call of the function that `fs.WalkDir` gets.
pub record Visit : Type 0 where
  pub path : FilePath
  pub is_dir : Bool
  pub failed : Option Error

-- The number of the files removed, and the joined errors, if there are any.
pub record Swept : Type 0 where
  pub removed : ℕ
  pub errors : Option Error
  pub files : Files

-- `append(errs, err)`, joined at the end.
abbrev pub and_error : Option Error → Error → Option Error
and_error none e = some e
and_error (some old) e = some (old ++ e)

abbrev pub after_remove : FilePath → Option Error → Swept → Swept
after_remove path none s = record s { removed = suc s.removed; files = erase path s.files }
after_remove path (some e) s =
    if is e not_exist then s else record s { errors = and_error s.errors e }

-- The walk, with the answers of `root.Remove`; an error of the walk itself ends it.
module _ (remove : FilePath → Option Error) where
  abbrev visited : Visit → Option Error → Swept → (Swept → Swept) → Swept
  unfolding is_stale
  visited v (some e) s rest = record s { errors = and_error s.errors e }
  visited v none s rest =
      rest (if v.is_dir || not (is_stale v.path) then s else after_remove v.path (remove v.path) s)

  unfoldable pub sweep_from : List Visit → Swept → Swept
  unfolding visited
  sweep_from [] s = s
  sweep_from (v ∷ vs) s = visited v v.failed s (sweep_from vs)

abbrev opened : Option Error → Swept → Swept → Swept
opened none before after = after
opened (some e) before after = if is e not_exist then before else record before { errors = some e }

-- `open` is the error of `os.OpenRoot`.
unfoldable pub sweep_stale : Option Error → List Visit → (FilePath → Option Error) → Files → Swept
unfolding sweep_from opened
sweep_stale open_root visits remove files =
    let start : Swept = record { removed = 0; errors = none; files = files } in
    opened open_root start (sweep_from remove visits start)
