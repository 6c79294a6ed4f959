-- ===== src/Files/Path.antt =====
-- `filepath.Clean`, `Join`, `Rel`, `Dir` and `Ext`. A cleaned path is a flag and its components;
-- distinct values are distinct strings.
use mathlib.Core.List.{reverse}
use tidal_syncer.Shared.{
  ℕ, Bool, false, not, ◌&&◌, ◌||◌, Option, none, some, List, [], ◌∷◌, Text, codes, nat_eq, text_eq,
  Eq, ◌==◌, contains, if◌then◌else◌, Bool-discrete,
}
use native.Mathlib.Decide.{ℕ_discrete}
use tidal_syncer.Namer.Template.{split, join}

pub record FilePath : Type 0 where
  pub rooted : Bool
  pub parts : List Text

FilePath-discrete : Discrete FilePath
FilePath-discrete = hlevel (ℕ_discrete, Bool-discrete)

instance unfoldable pub path_eq : Eq FilePath
unfolding FilePath-discrete ℕ_discrete
path_eq = record { dec = FilePath-discrete }

abbrev pub dot_dot : Text
dot_dot = codes ".."

-- One component onto those so far, the last first.
unfoldable pub go_up : Bool → List Text → List Text
go_up rooted [] = if rooted then [] else dot_dot ∷ []
go_up rooted (c ∷ out) = if c == dot_dot then dot_dot ∷ c ∷ out else out

unfoldable pub push : Bool → List Text → Text → List Text
unfolding go_up
push rooted out c =
    if c == [] || c == codes "." then out else if c == dot_dot then go_up rooted out else c ∷ out

unfoldable pub push_all : Bool → List Text → List Text → List Text
unfolding push
push_all rooted out [] = out
push_all rooted out (c ∷ cs) = push_all rooted (push rooted out c) cs

abbrev pub is_rooted : Text → Bool
is_rooted [] = false
is_rooted (c ∷ s) = c == b'/'

unfoldable pub clean : Text → FilePath
unfolding push_all split
clean s = record {
  rooted = is_rooted s;
  parts = reverse (push_all (is_rooted s) [] (split b'/' s));
}

-- The string that a cleaned path stands for.
abbrev pub or_dot : Text → Text
or_dot [] = codes "."
or_dot (c ∷ s) = c ∷ s

unfoldable pub to_text : FilePath → Text
unfolding join
to_text p = if p.rooted then b'/' ∷ join b'/' p.parts else or_dot (join b'/' p.parts)

-- `filepath.Join(root, s)`
unfoldable pub join_path : FilePath → Text → FilePath
unfolding push_all split
join_path root s = record root {
  parts = reverse (push_all root.rooted (reverse root.parts) (split b'/' s));
}

-- `filepath.Dir`, with the components last first.
abbrev pub all_but_first : List Text → List Text
all_but_first [] = []
all_but_first (c ∷ cs) = cs

unfoldable pub dir : FilePath → FilePath
dir p = record p { parts = reverse (all_but_first (reverse p.parts)) }

abbrev pub ups : List Text → List Text → List Text
ups [] rest = rest
ups (c ∷ cs) rest = dot_dot ∷ ups cs rest

-- What is left of the target behind the common components, with one ".." for each left of the base.
unfoldable pub rel_parts : List Text → List Text → Option (List Text)
rel_parts [] target = some target
rel_parts (b ∷ base) [] = if b == dot_dot then none else some (ups (b ∷ base) [])
rel_parts (b ∷ base) (t ∷ target) =
    let deeper = rel_parts base target in
    if b == t then deeper else if b == dot_dot then none else some (ups (b ∷ base) (t ∷ target))

unfoldable pub rel : FilePath → FilePath → Option (List Text)
unfolding rel_parts
rel base target =
    if (base.rooted && target.rooted) || (not base.rooted && not target.rooted)
    then rel_parts base.parts target.parts
    else none

abbrev or_else_dot : ℕ → Text → Text → Text
or_else_dot c cs [] = if c == b'.' && not (contains cs b'/') then c ∷ cs else []
or_else_dot c cs (d ∷ found) = d ∷ found

-- `filepath.Ext`: from the last dot of the last component, or nothing.
unfoldable pub ext : Text → Text
ext [] = []
ext (c ∷ cs) = or_else_dot c cs (ext cs)
