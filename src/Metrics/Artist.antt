-- ===== src/Metrics/Artist.antt =====
-- The artist of a file that the engine has written.
use mathlib.Core.Path.{subst}
use mathlib.Core.List.{append_assoc}
use tidal_syncer.Shared.{
  ℕ, Bool, true, false, Bool-cases, inl, inr, some, List, [], ◌∷◌, ◌++◌, Text, text_eq, nat_eq,
  ◌==◌, All, drop, length, length-append, arith, ◌≡◌, ◌≢◌, refl, ◌∙◌, sym, ap,
}
use tidal_syncer.Manifest.Mpd.{has_prefix}
use tidal_syncer.Files.Path.{FilePath, clean, to_text, or_dot, join_path}
use tidal_syncer.Namer.Template.{join}
use tidal_syncer.Namer.Template.Paths.{IsSafe, Lacks, All-Lacks, split-join}
use tidal_syncer.Tidal.Client.{trim_right}
use tidal_syncer.Sync.Playlist.Resolve.{comps, dest_parts}
use tidal_syncer.Metrics.{trim_prefix, cut, cons_cut, first_of, album_artist}

has_prefix-append : (p s : Text) → has_prefix p (p ++ s) ≡ true
unfolding has_prefix nat_eq
has_prefix-append [] s = refl
has_prefix-append (c ∷ p) s = ground (arith, has_prefix-append p s)

drop-append : (p s : Text) → drop (length p) (p ++ s) ≡ s
drop-append [] s = refl
drop-append (c ∷ p) s = drop-append p s

trim_prefix-append : (p s : Text) → trim_prefix (p ++ s) p ≡ s
unfolding trim_prefix
trim_prefix-append p s = rw (has_prefix-append p s) (drop-append p s)

cut-append : (s rest : Text) → Lacks b'/' s → cut (s ++ b'/' ∷ rest) ≡ some (s, rest)
unfolding cut nat_eq
cut-append [] rest h = refl
cut-append (c ∷ s) rest h = rw (h.0, cut) (ap (cons_cut c) (cut-append s rest h.1))

longer : (p : Text) (c : ℕ) (s : Text) → (s == p ++ c ∷ s) ≡ false
longer p c s = elim (Bool-cases (s == p ++ c ∷ s)) [
  | inl same ↦
      let e : s ≡ p ++ c ∷ s = ground (arith, same) in
      absurd (omega (arith, ap length e, length-append p (c ∷ s)))
  | inr apart ↦ apart
]

join-append :
    (p : Text) (ps : List Text) (c : Text) (cs : List Text)
    → join b'/' ((p ∷ ps) ++ c ∷ cs) ≡ join b'/' (p ∷ ps) ++ b'/' ∷ join b'/' (c ∷ cs)
unfolding join
join-append p [] c cs = refl
join-append p (q ∷ ps) c cs =
    ap (λ s. p ++ b'/' ∷ s) (join-append q ps c cs)
    ∙ sym (append_assoc p (b'/' ∷ join b'/' (q ∷ ps)) (b'/' ∷ join b'/' (c ∷ cs)))

first_of-some : (c rest : Text) → c ≢ [] → rest ≢ [] → first_of (some (c, rest)) ≡ c
first_of-some c rest n m = ground (arith, n, m)

-- What stands below the root, up to the first separator.
artist-below :
    (c rest : Text)
    → c ≢ []
    → rest ≢ []
    → Lacks b'/' c
    → first_of (cut (trim_prefix (c ++ b'/' ∷ rest) (b'/' ∷ []))) ≡ c
unfolding trim_prefix has_prefix nat_eq
artist-below [] rest n m h = absurd (n refl)
artist-below (x ∷ c) rest n m h =
    let flip : (b'/' == x) ≡ false = ground (arith, h.0) in
    rw flip (ap first_of (cut-append (x ∷ c) rest h) ∙ first_of-some (x ∷ c) rest n m)

below_root : (t below : Text) → trim_prefix (t ++ b'/' ∷ below) (t ++ b'/' ∷ []) ≡ below
below_root t below =
    ap (λ s. trim_prefix s (t ++ b'/' ∷ [])) (sym (append_assoc t (b'/' ∷ []) below))
    ∙ trim_prefix-append (t ++ b'/' ∷ []) below

album_artist-append :
    (root c rest : Text)
    → c ≢ []
    → rest ≢ []
    → Lacks b'/' c
    → album_artist (trim_right root ++ b'/' ∷ (c ++ b'/' ∷ rest)) root ≡ c
unfolding album_artist
album_artist-append root c rest n m h =
    rw
      (
        below_root (trim_right root) (c ++ b'/' ∷ rest),
        longer (trim_right root) b'/' (c ++ b'/' ∷ rest),
      )
      (artist-below c rest n m h)

or_dot-join :
    (p : Text) (ps : List Text) → p ≢ [] → or_dot (join b'/' (p ∷ ps)) ≡ join b'/' (p ∷ ps)
unfolding join
or_dot-join [] ps n = absurd (n refl)
or_dot-join (b ∷ p) [] n = refl
or_dot-join (b ∷ p) (q ∷ ps) n = refl

join-nonempty : (p : Text) (ps : List Text) → p ≢ [] → join b'/' (p ∷ ps) ≢ []
unfolding join
join-nonempty [] ps n = absurd (n refl)
join-nonempty (b ∷ p) [] n = λ e. cc
join-nonempty (b ∷ p) (q ∷ ps) n = λ e. cc

abbrev text_of : Bool → List Text → Text
text_of rooted parts = to_text (record { rooted = rooted; parts = parts })

to_text-append :
    (rooted : Bool) (p : Text) (ps : List Text) (c : Text) (cs : List Text)
    → p ≢ []
    → to_text (record { rooted = rooted; parts = (p ∷ ps) ++ c ∷ cs })
      ≡ to_text (record { rooted = rooted; parts = p ∷ ps }) ++ b'/' ∷ join b'/' (c ∷ cs)
unfolding to_text
to_text-append true p ps c cs n = ap (λ s. b'/' ∷ s) (join-append p ps c cs)
to_text-append false p ps c cs n =
    or_dot-join p (ps ++ c ∷ cs) n
    ∙ join-append p ps c cs
    ∙ ap (λ s. s ++ b'/' ∷ join b'/' (c ∷ cs)) (sym (or_dot-join p ps n))

-- A rendered path below a root with a component.
to_text-join_path :
    (root : FilePath) (p : Text) (ps : List Text) (c : Text) (cs : List Text)
    → root.parts ≡ p ∷ ps
    → p ≢ []
    → All IsSafe (c ∷ cs)
    → to_text (join_path root (join b'/' (c ∷ cs))) ≡ to_text root ++ b'/' ∷ join b'/' (c ∷ cs)
unfolding join_path comps
to_text-join_path root p ps c cs parts n safe =
    let back = split-join b'/' c cs (All-Lacks (c ∷ cs) safe) in
    let text = text_of root.rooted in
    ap text (dest_parts root (join b'/' (c ∷ cs)) (subst (All IsSafe) (sym back) safe))
    ∙ ap (λ xs. text (root.parts ++ xs)) back
    ∙ ap (λ xs. text (xs ++ c ∷ cs)) parts
    ∙ to_text-append root.rooted p ps c cs n
    ∙ ap (λ xs. text xs ++ b'/' ∷ join b'/' (c ∷ cs)) (sym parts)

-- The metrics find the artist of a file that the engine has written: the first component of the
-- rendered path, if it has at least two, all of them safe. The configured music root must be written
-- like its cleaned path, up to separators at its end, and have a component.
pub album_artist-join_path :
    (music p : Text) (ps : List Text) (c d : Text) (cs : List Text)
    → trim_right music ≡ to_text (clean music)
    → (clean music).parts ≡ p ∷ ps
    → p ≢ []
    → All IsSafe (c ∷ d ∷ cs)
    → album_artist (to_text (join_path (clean music) (join b'/' (c ∷ d ∷ cs)))) music ≡ c
unfolding join
album_artist-join_path music p ps c d cs written parts named safe =
    ap (λ s. album_artist s music)
      (to_text-join_path (clean music) p ps c (d ∷ cs) parts named safe
        ∙ ap (λ t. t ++ b'/' ∷ (c ++ b'/' ∷ join b'/' (d ∷ cs))) (sym written))
    ∙ album_artist-append music c (join b'/' (d ∷ cs)) safe.0.0.nonempty
        (join-nonempty d cs safe.1.0.0.nonempty) (All-Lacks (c ∷ d ∷ cs) safe).0
