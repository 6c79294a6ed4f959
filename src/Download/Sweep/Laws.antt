-- ===== src/Download/Sweep/Laws.antt =====
-- What the sweep removes.
use mathlib.Core.List.{reverse, reverse-append, reverse-cons, reverse-reverse}
use tidal_syncer.Manifest.Mpd.{has_prefix}
use tidal_syncer.Shared.{
  true, false, not, ◌||◌, Bool-cases, Option-cases, Option, none, some, inl, inr, ◌⊎◌, List, [],
  ◌∷◌, All, if◌then◌else◌, arith, ◌≡◌, refl, ◌∙◌, ap, sym, Bool, Text, ◌++◌, codes, nat_eq,
}
use tidal_syncer.Shared.Map.{lookup, lookup-erase}
use tidal_syncer.Failure.{Error, not_exist, is}
use tidal_syncer.Files.Path.{FilePath, path_eq}
use tidal_syncer.Download.Sweep.{
  Files, is_stale, has_suffix, base, last_of, part_suffix, Visit, Swept, after_remove, visited,
  sweep_from, opened, sweep_stale,
}
use tidal_syncer.Download.Sweep.View.{view, view-erase, is_stale-suffix}

-- The walk comes to a file.
abbrev pub Visits : FilePath → List Visit → Type 0
Visits q [] = ⊥
Visits q (v ∷ vs) = ((v.path ≡ q) × (v.is_dir ≡ false)) ⊎ Visits q vs

module _ (remove : FilePath → Option Error) where
  abbrev step : Visit → Swept → Swept
  step v s = if v.is_dir || not (is_stale v.path) then s else after_remove v.path (remove v.path) s

  view-after_remove :
      (p : FilePath) (o : Option Error) (s : Swept)
      → is_stale p ≡ true
      → view (after_remove p o s).files ≡ view s.files
  view-after_remove p none s h = view-erase p s.files h
  view-after_remove p (some e) s h = elim (Bool-cases (is e not_exist)) [
    | inl gone ↦ rw gone refl
    | inr there ↦ rw there refl
  ]

  view-step : (v : Visit) (s : Swept) → view (step v s).files ≡ view s.files
  view-step v s = elim (Bool-cases (v.is_dir || not (is_stale v.path))) [
    | inl skipped ↦ rw skipped refl
    | inr stale ↦ rw stale (view-after_remove v.path (remove v.path) s (ground (arith, stale)))
  ]

  view-sweep_from :
      (vs : List Visit) (s : Swept) → view (sweep_from remove vs s).files ≡ view s.files
  unfolding sweep_from visited
  view-sweep_from [] s = refl
  view-sweep_from (v ∷ vs) s = elim (Option-cases v.failed) [
    | inl fine ↦ rw fine (view-sweep_from vs (step v s) ∙ view-step v s)
    | inr (e, broken) ↦ rw broken refl
  ]

  -- A file that is gone stays so.
  gone-step :
      (q : FilePath) (v : Visit) (s : Swept)
      → lookup q s.files ≡ none
      → lookup q (step v s).files ≡ none
  gone-step q v s h = elim (Bool-cases (v.is_dir || not (is_stale v.path))) [
    | inl skipped ↦ rw skipped h
    | inr stale ↦ rw stale (go (remove v.path))
  ]
    where
      go : (o : Option Error) → lookup q (after_remove v.path o s).files ≡ none
      go none = lookup-erase q v.path s.files ∙ ground (arith, h)
      go (some e) = elim (Bool-cases (is e not_exist)) [ inl a ↦ rw a h | inr a ↦ rw a h ]

  gone-sweep_from :
      (q : FilePath) (vs : List Visit) (s : Swept)
      → lookup q s.files ≡ none
      → lookup q (sweep_from remove vs s).files ≡ none
  unfolding sweep_from visited
  gone-sweep_from q [] s h = h
  gone-sweep_from q (v ∷ vs) s h = elim (Option-cases v.failed) [
    | inl fine ↦ rw fine (gone-sweep_from q vs (step v s) (gone-step q v s h))
    | inr (e, broken) ↦ rw broken h
  ]

  erased-step :
      (q : FilePath) (v : Visit) (s : Swept)
      → is_stale q ≡ true
      → remove q ≡ none
      → v.path ≡ q
      → v.is_dir ≡ false
      → lookup q (step v s).files ≡ none
  unfolding path_eq
  erased-step q v s stale r p d = rw (p, d, stale, r) (lookup-erase q q s.files ∙ ground arith)

  removed-sweep_from :
      (q : FilePath) (vs : List Visit) (s : Swept)
      → is_stale q ≡ true
      → remove q ≡ none
      → All (λ v. v.failed ≡ none) vs
      → Visits q vs
      → lookup q (sweep_from remove vs s).files ≡ none
  unfolding sweep_from visited
  removed-sweep_from q [] s stale r a here = absurd here
  removed-sweep_from q (v ∷ vs) s stale r a (inl h) =
      rw (a.0) (gone-sweep_from q vs (step v s) (erased-step q v s stale r h.0 h.1))
  removed-sweep_from q (v ∷ vs) s stale r a (inr h) =
      rw (a.0) (removed-sweep_from q vs (step v s) stale r a.1 h)

-- The last component of the path ends in ".part".
pub record IsPart (q : FilePath) : Type 0 where
  pub folder : List Text
  pub front : Text
  pub parts : q.parts ≡ folder ++ (front ++ codes ".part") ∷ []

IsPart-is_stale : (q : FilePath) → IsPart q → is_stale q ≡ true
IsPart-is_stale q part =
    ap (λ parts. is_stale (record q { parts = parts })) part.parts
    ∙ is_stale-suffix q part.folder part.front

has_prefix-rest : (p s : Text) → has_prefix p s ≡ true → (rest : Text) × (s ≡ p ++ rest)
unfolding has_prefix nat_eq
has_prefix-rest [] s h = (s, refl)
has_prefix-rest (c ∷ p) [] h = absurd (ground (arith, h))
has_prefix-rest (c ∷ p) (d ∷ s) h =
    let (rest, e) = has_prefix-rest p s (ground (arith, h)) in
    let same : d ≡ c = ground (arith, h) in (rest, rw same (ap (λ x. c ∷ x) e))

has_suffix-front :
    (s suffix : Text) → has_suffix s suffix ≡ true → (front : Text) × (s ≡ front ++ suffix)
unfolding has_suffix
has_suffix-front s suffix h =
    let (rest, e) = has_prefix-rest (reverse suffix) (reverse s) h in
    (
      reverse rest,
      sym (reverse-reverse s)
          ∙ ap reverse e
          ∙ reverse-append (reverse suffix) rest
          ∙ ap (λ x. reverse rest ++ x) (reverse-reverse suffix),
    )

last_part :
    (rooted : Bool) (parts backwards : List Text)
    → reverse parts ≡ backwards
    → has_suffix (last_of rooted backwards) part_suffix ≡ true
    → IsPart (record { rooted = rooted; parts = parts })
last_part true parts [] e h = unfold has_suffix has_prefix nat_eq in absurd (ground (arith, h))
last_part false parts [] e h = unfold has_suffix has_prefix nat_eq in absurd (ground (arith, h))
last_part rooted parts (c ∷ cs) e h =
    let (front, ends) = has_suffix-front c part_suffix h in
    record {
      folder = reverse cs;
      front = front;
      parts =
          sym (reverse-reverse parts)
          ∙ ap reverse e
          ∙ reverse-cons c cs
          ∙ ap (λ x. reverse cs ++ x ∷ []) ends;
    }

is_stale-IsPart : (q : FilePath) → is_stale q ≡ true → IsPart q
unfolding is_stale base
is_stale-IsPart q h = last_part q.rooted q.parts (reverse q.parts) refl h

seen :
    (q : FilePath) (files after : Files)
    → view after ≡ view files
    → (lookup q after ≡ lookup q files) ⊎ IsPart q
seen q files after h = elim (Bool-cases (is_stale q)) [
  | inl stale ↦ inr (is_stale-IsPart q stale)
  | inr fresh ↦ inl (unfold view in rw fresh at (ap (λ (v : FilePath → Option Text). v q) h))
]

view-sweep_stale :
    (open_root : Option Error) (visits : List Visit) (remove : FilePath → Option Error)
    (files : Files)
    → view (sweep_stale open_root visits remove files).files ≡ view files
unfolding sweep_stale opened
view-sweep_stale none visits remove files = view-sweep_from remove visits _
view-sweep_stale (some e) visits remove files = elim (Bool-cases (is e not_exist)) [
  | inl gone ↦ rw gone refl
  | inr there ↦ rw there refl
]

-- The sweep keeps every file whose name does not end in ".part", whatever fails.
pub sweep_stale-keeps :
    (open_root : Option Error) (visits : List Visit) (remove : FilePath → Option Error)
    (files : Files) (q : FilePath)
    → (lookup q (sweep_stale open_root visits remove files).files ≡ lookup q files) ⊎ IsPart q
sweep_stale-keeps open_root visits remove files q =
    seen q files _ (view-sweep_stale open_root visits remove files)

-- If the root is opened and the walk has no error, each file that the walk comes to, whose name ends in
-- ".part" and that can be removed, is gone.
pub sweep_stale-removes :
    (visits : List Visit) (remove : FilePath → Option Error) (files : Files) (q : FilePath)
    → IsPart q
    → remove q ≡ none
    → All (λ v. v.failed ≡ none) visits
    → Visits q visits
    → lookup q (sweep_stale none visits remove files).files ≡ none
unfolding sweep_stale opened
sweep_stale-removes visits remove files q part r a h =
    removed-sweep_from remove q visits _ (IsPart-is_stale q part) r a h
