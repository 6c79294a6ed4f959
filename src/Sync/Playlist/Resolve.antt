-- ===== src/Sync/Playlist/Resolve.antt =====
-- The paths in a playlist lead to the files that the engine writes.
use mathlib.Core.Path.{subst}
use mathlib.Core.List.{append_assoc, reverse, reverse-append, reverse-cons, reverse-reverse}
use tidal_syncer.Shared.{
  Bool, true, false, Bool-cases, ◌||◌, Option, none, some, inl, inr, List, [], ◌∷◌, ◌++◌, Text,
  codes, text_eq, nat_eq, ◌==◌, contains, All, arith, ◌≡◌, refl, ◌∙◌, sym, ap,
}
use tidal_syncer.Shared.Decimal.{itoa}
use tidal_syncer.Failure.{Result, ok, err, ◌>>=◌, ◌>>◌, >>=-eq-ok}
use tidal_syncer.Files.Path.{
  FilePath, dir, go_up, push, push_all, rel_parts, rel, join_path, clean, dot_dot, to_text,
}
use tidal_syncer.Sync.Playlist.{
  playlists_dir_name, or_here, relative_of, relative, path_with, playlists_dir,
}
use tidal_syncer.Config.Types.{Config}
use tidal_syncer.Tidal.Quality.{Quality}
use tidal_syncer.Tidal.Dto.{Track, Album}
use tidal_syncer.Sync.Meta.{build_track_meta}
use tidal_syncer.Sync.Ports.{Ports}
use tidal_syncer.Sync.Process.{fetch_file, write_tags, fetch_lyrics, fetch_genres}
use tidal_syncer.Namer.Template.{Template, TrackMeta, split, compile, render}
use tidal_syncer.Namer.Template.Paths.{IsSafe, Lacks, All-Lacks, split-join, render-IsSafe}
use tidal_syncer.Namer.Sanitize.Safety.{IsClean, last_or_zero}
use tidal_syncer.Namer.Sanitize.{trailing_cutset}

-- A component that is pushed onto a path as it is.
abbrev IsPlain : Text → Type 0
IsPlain c = ((c == [] || c == codes ".") ≡ false) × ((c == dot_dot) ≡ false)

push-IsPlain :
    (rooted : Bool) (out : List Text) (c : Text) → IsPlain c → push rooted out c ≡ c ∷ out
unfolding push
push-IsPlain rooted out c h = rw (h.0, h.1) refl

snoc : (c : Text) (cs out : List Text) → reverse (c ∷ cs) ++ out ≡ reverse cs ++ c ∷ out
snoc c cs out = ap (λ xs. xs ++ out) (reverse-cons c cs) ∙ append_assoc (reverse cs) (c ∷ []) out

push_all-IsPlain :
    (rooted : Bool) (cs out : List Text)
    → All IsPlain cs
    → push_all rooted out cs ≡ reverse cs ++ out
unfolding push_all
push_all-IsPlain rooted [] out h = refl
push_all-IsPlain rooted (c ∷ cs) out h =
    rw (push-IsPlain rooted out c h.0, push_all-IsPlain rooted cs (c ∷ out) h.1)
      (sym (snoc c cs out))

-- What `Rel` gives between two paths below a common one, for a base with one component more.
rel_parts-below :
    (xs : List Text) (p : Text) (cs : List Text)
    → (p == dot_dot) ≡ false
    → rel_parts (xs ++ p ∷ []) (xs ++ cs) ≡ rel_parts (p ∷ []) cs
unfolding rel_parts
rel_parts-below [] p cs h = refl
rel_parts-below (x ∷ xs) p cs h = ground (arith, rel_parts-below xs p cs h)

-- One ".." takes the component away.
climb :
    (rooted : Bool) (out : List Text) (p : Text) (rest : List Text)
    → IsPlain p
    → push_all rooted (p ∷ out) (dot_dot ∷ rest) ≡ push_all rooted out rest
unfolding push_all push go_up text_eq
climb rooted out p rest h = rw (h.1) refl

ok-injective : (x y : Text) → ok x ≡ ok y → x ≡ y
ok-injective x y e = cc

some-injective : (x y : List Text) → some x ≡ some y → x ≡ y
some-injective x y e = cc

-- Following those components from the base leads to the target.
push_all-rel_parts :
    (rooted : Bool) (out : List Text) (p : Text) (cs r : List Text)
    → IsPlain p
    → All IsPlain cs
    → rel_parts (p ∷ []) cs ≡ some r
    → push_all rooted (p ∷ out) r ≡ reverse cs ++ out
unfolding rel_parts
push_all-rel_parts rooted out p [] r h a e =
    let up : some (dot_dot ∷ []) ≡ some r = rw h.1 at e in
    rw (← some-injective (dot_dot ∷ []) r up)
      (climb rooted out p [] h ∙ push_all-IsPlain rooted [] out tt)
push_all-rel_parts rooted out p (c ∷ cs) r h a e = elim (Bool-cases (p == c)) [
  | inl same ↦
      let down : some cs ≡ some r = rw same at e in
      rw (← some-injective cs r down) (
        push_all-IsPlain rooted cs (p ∷ out) a.1
        ∙ sym (snoc p cs out)
        ∙ ap (λ x. reverse (x ∷ cs) ++ out) (let eq : p ≡ c = ground (arith, same) in eq))
  | inr apart ↦
      let up : some (dot_dot ∷ c ∷ cs) ≡ some r = rw h.1 at (rw apart at e) in
      rw (← some-injective (dot_dot ∷ c ∷ cs) r up)
        (climb rooted out p (c ∷ cs) h ∙ push_all-IsPlain rooted (c ∷ cs) out a)
]

rel_parts-Lacks :
    (p : Text) (cs r : List Text)
    → (p == dot_dot) ≡ false
    → All (Lacks b'/') cs
    → rel_parts (p ∷ []) cs ≡ some r
    → All (Lacks b'/') r
unfolding rel_parts nat_eq
rel_parts-Lacks p [] r h a e =
    let up : some (dot_dot ∷ []) ≡ some r = rw h at e in
    subst (All (Lacks b'/')) (some-injective (dot_dot ∷ []) r up) ((refl, (refl, tt)), tt)
rel_parts-Lacks p (c ∷ cs) r h a e = elim (Bool-cases (p == c)) [
  | inl same ↦
      let down : some cs ≡ some r = rw same at e in
      subst (All (Lacks b'/')) (some-injective cs r down) a.1
  | inr apart ↦
      let up : some (dot_dot ∷ c ∷ cs) ≡ some r = rw h at (rw apart at e) in
      subst (All (Lacks b'/')) (some-injective (dot_dot ∷ c ∷ cs) r up) ((refl, (refl, tt)), a)
]

-- Reading the string of relative components back.
push_all-or_here :
    (rooted : Bool) (out r : List Text)
    → All (Lacks b'/') r
    → push_all rooted out (split b'/' (or_here r)) ≡ push_all rooted out r
unfolding push_all push split text_eq nat_eq
push_all-or_here rooted out [] h = refl
push_all-or_here rooted out (c ∷ cs) h = ap (push_all rooted out) (split-join b'/' c cs h)

playlists_dir_name-IsPlain : IsPlain playlists_dir_name
unfolding text_eq
playlists_dir_name-IsPlain = (refl, refl)

apart_from :
    (c d : Text)
    → contains trailing_cutset (last_or_zero c) ≡ false
    → contains trailing_cutset (last_or_zero d) ≡ true
    → (c == d) ≡ false
apart_from c d h k = elim (Bool-cases (c == d)) [
  | inl same ↦
      let eq : c ≡ d = ground (arith, same) in
      absurd
        (ground (arith, k, subst (λ s. contains trailing_cutset (last_or_zero s) ≡ false) eq h))
  | inr apart ↦ apart
]

IsSafe-IsPlain : (c : Text) → IsSafe c → IsPlain c
unfolding nat_eq
IsSafe-IsPlain c (comp, clean_bytes) = (
  ground (arith, comp.nonempty, apart_from c (codes ".") comp.ends refl),
  apart_from c dot_dot comp.ends refl,
)

All-IsPlain : (cs : List Text) → All IsSafe cs → All IsPlain cs
All-IsPlain [] h = tt
All-IsPlain (c ∷ cs) h = (IsSafe-IsPlain c h.0, All-IsPlain cs h.1)

rel-same_root : (a b : FilePath) → a.rooted ≡ b.rooted → rel a b ≡ rel_parts a.parts b.parts
unfolding rel
rel-same_root a b h = elim (Bool-cases a.rooted) [
  | inl rooted ↦ ground (arith, h, rooted)
  | inr unrooted ↦ ground (arith, h, unrooted)
]

relative_of-ok :
    (o : Option (List Text)) (p : Text)
    → relative_of o ≡ ok p
    → (r : List Text) × (o ≡ some r) × (or_here r ≡ p)
relative_of-ok none p h = cc
relative_of-ok (some r) p h = (r, refl, ok-injective (or_here r) p h)

-- A directory of the playlists below the music root, and a rendered path joined to the root.
module _ (music : FilePath) (rendered : Text) (safe : All IsSafe (split b'/' rendered)) where
  unfoldable pub comps : List Text
  comps = split b'/' rendered

  folder_parts : (join_path music playlists_dir_name).parts ≡ music.parts ++ playlists_dir_name ∷ []
  unfolding join_path push_all push split text_eq nat_eq
  folder_parts =
      reverse-cons playlists_dir_name (reverse music.parts)
      ∙ ap (λ xs. xs ++ playlists_dir_name ∷ []) (reverse-reverse music.parts)

  pub dest_parts : (join_path music rendered).parts ≡ music.parts ++ comps
  unfolding join_path comps
  dest_parts =
      ap reverse (
        push_all-IsPlain music.rooted (split b'/' rendered) (reverse music.parts)
          (All-IsPlain _ safe))
      ∙ reverse-append (reverse comps) (reverse music.parts)
      ∙ rw (reverse-reverse music.parts, reverse-reverse comps) refl

  rel-below :
      rel (join_path music playlists_dir_name) (join_path music rendered)
      ≡ rel_parts (playlists_dir_name ∷ []) comps
  unfolding join_path
  rel-below =
      rel-same_root (join_path music playlists_dir_name) (join_path music rendered) refl
      ∙ ap (λ xs. rel_parts xs (join_path music rendered).parts) folder_parts
      ∙ ap (rel_parts (music.parts ++ playlists_dir_name ∷ [])) dest_parts
      ∙ rel_parts-below music.parts playlists_dir_name comps playlists_dir_name-IsPlain.1

  resolved_parts :
      (r : List Text)
      → rel_parts (playlists_dir_name ∷ []) comps ≡ some r
      → (join_path (join_path music playlists_dir_name) (or_here r)).parts
        ≡ (join_path music rendered).parts
  unfolding join_path comps
  resolved_parts r e = ap reverse (
      push_all-or_here music.rooted _ r (
        rel_parts-Lacks playlists_dir_name comps r playlists_dir_name-IsPlain.1
          (All-Lacks comps safe) e)
      ∙ ap (λ out. push_all music.rooted out r)
          (ap reverse folder_parts ∙ reverse-append music.parts (playlists_dir_name ∷ []))
      ∙ push_all-rel_parts music.rooted (reverse music.parts) playlists_dir_name comps r
          playlists_dir_name-IsPlain (All-IsPlain comps safe) e
      ∙ sym (push_all-IsPlain music.rooted comps (reverse music.parts) (All-IsPlain comps safe)))

  relative-resolves :
      (p : Text)
      → relative (join_path music playlists_dir_name) (join_path music rendered) ≡ ok p
      → join_path (join_path music playlists_dir_name) p ≡ join_path music rendered
  unfolding relative join_path
  relative-resolves p h =
      let (r, e, is_p) = relative_of-ok _ p h in
      rw (← is_p) λ i. record music { parts = resolved_parts r (sym rel-below ∙ e) i }

rendered-IsSafe :
    (nfc : Text → Text)
    → ((s : Text) → All IsClean s → All IsClean (nfc s))
    → (t : Template) (m : TrackMeta) (rendered : Text) → render nfc t m ≡ ok rendered
    → All IsSafe (split b'/' rendered)
rendered-IsSafe nfc keeps t m rendered h = elim (render-IsSafe nfc keeps t m) [
  | inl (empty, failed) ↦ cc
  | inr (path, e, safe) ↦
      subst (λ s. All IsSafe (split b'/' s)) (ok-injective path rendered (sym e ∙ h)) safe
]

written_to :
    (a : Result (Unit {0})) (b : Result Quality) (c d : Result (Unit {0})) (x dest : Text)
    (quality : Quality)
    → ◌>>◌ {W = Text × Quality} a
        (do q ← b; ◌>>◌ {W = Text × Quality} c (◌>>◌ {W = Text × Quality} d (ok (x, q))))
      ≡ ok (dest, quality)
    → dest ≡ x
written_to (err e) b c d x dest quality h = cc
written_to (ok u) (err e) c d x dest quality h = cc
written_to (ok u) (ok q) (err e) d x dest quality h = cc
written_to (ok u) (ok q) (ok v) (err e) x dest quality h = cc
written_to (ok u) (ok q) (ok v) (ok w) x dest quality h = cc

-- The path of a playlist's entry, followed from the directory of the playlists, is the file that the
-- engine writes for the track and the same album, if both succeed. Normalisation is assumed to make no
-- clean text unclean.
pub path_with-eq-fetch_file :
    (nfc : Text → Text)
    → ((s : Text) → All IsClean s → All IsClean (nfc s))
    → (ports : Ports) (cfg : Config) (retry_failed : Bool) (track : Track) (album : Album)
      (cover p dest : Text) (quality : Quality)
    → path_with nfc ports cfg (playlists_dir nfc ports cfg) track album ≡ ok p
    → fetch_file nfc ports cfg retry_failed track album cover ≡ ok (dest, quality)
    → dest ≡ to_text (join_path (playlists_dir nfc ports cfg) p)
unfolding path_with playlists_dir fetch_file
path_with-eq-fetch_file nfc keeps ports cfg retry_failed track album cover p dest quality h k =
    let (rendered, r, rest) =
      >>=-eq-ok (render nfc (compile cfg.path_template) (build_track_meta track album)) _ h in
    let (again, r2, rest2) =
      >>=-eq-ok (render nfc (compile cfg.path_template) (build_track_meta track album)) _ k in
    let same : rendered ≡ again = ok-injective rendered again (sym r ∙ r2) in
    let safe =
      rendered-IsSafe nfc keeps (compile cfg.path_template) (build_track_meta track album) rendered
        r in
    let path = join_path (clean cfg.paths.music) again in
    written_to (ports.mkdir_all (to_text (dir path)))
      (ports.download (itoa track.id) (to_text path)) (ports.integrity_check (to_text path))
      (write_tags nfc ports cfg retry_failed (to_text path) track album cover
        (fetch_lyrics nfc ports cfg retry_failed track)
        (fetch_genres nfc ports cfg retry_failed track))
      (to_text path) dest quality rest2
    ∙ ap (λ s. to_text (join_path (clean cfg.paths.music) s)) (sym same)
    ∙ ap to_text (sym (relative-resolves (clean cfg.paths.music) rendered safe p rest))
