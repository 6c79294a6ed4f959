-- ===== src/Download/Sweep/View.antt =====
-- The files without the temporary ones.
use mathlib.Core.Path.{fun_ext}
use mathlib.Core.List.{reverse, reverse-append}
use tidal_syncer.Shared.{
  true, false, Option, none, some, List, [], ◌∷◌, ◌++◌, Text, nat_eq, ◌==◌, if◌then◌else◌, arith,
  ◌≡◌, refl,
}
use tidal_syncer.Shared.Map.{lookup, insert, erase, lookup-insert, lookup-erase}
use tidal_syncer.Files.Path.{FilePath, path_eq}
use tidal_syncer.Manifest.Mpd.{has_prefix}
use tidal_syncer.Download.Sweep.{Files, part_suffix, has_suffix, base, is_stale}

-- What a reader of the library sees: the content of each file that is not a part file.
abbrev pub View : Type 0
View = FilePath → Option Text

unfoldable pub view : Files → View
view files q = if is_stale q then none else lookup q files

-- The same with one file set.
unfoldable pub put : FilePath → Text → View → View
put dest bytes v q = if q == dest then some bytes else v q

has_prefix-append : (p s : Text) → has_prefix p (p ++ s) ≡ true
unfolding has_prefix nat_eq
has_prefix-append [] s = refl
has_prefix-append (c ∷ p) s = ground (arith, has_prefix-append p s)

has_suffix-append : (s suffix : Text) → has_suffix (s ++ suffix) suffix ≡ true
unfolding has_suffix
has_suffix-append s suffix =
    rw (reverse-append s suffix) (has_prefix-append (reverse suffix) (reverse s))

-- A path whose last component ends in the suffix is temporary.
pub is_stale-suffix :
    (p : FilePath) (cs : List Text) (front : Text)
    → is_stale (record p { parts = cs ++ (front ++ part_suffix) ∷ [] }) ≡ true
unfolding is_stale base
is_stale-suffix p cs front =
    rw (reverse-append cs ((front ++ part_suffix) ∷ [])) (has_suffix-append front part_suffix)

pub view-erase :
    (p : FilePath) (files : Files) → is_stale p ≡ true → view (erase p files) ≡ view files
unfolding view path_eq
view-erase p files h = fun_ext λ q. rw (lookup-erase q p files) (ground (arith, h))

pub view-insert_stale :
    (p : FilePath) (bytes : Text) (files : Files)
    → is_stale p ≡ true
    → view (insert p bytes files) ≡ view files
unfolding view path_eq
view-insert_stale p bytes files h =
    fun_ext λ q. rw (lookup-insert q p bytes files) (ground (arith, h))

pub view-insert :
    (p : FilePath) (bytes : Text) (files : Files)
    → is_stale p ≡ false
    → view (insert p bytes files) ≡ put p bytes (view files)
unfolding view put path_eq
view-insert p bytes files h = fun_ext λ q. rw (lookup-insert q p bytes files) (ground (arith, h))
