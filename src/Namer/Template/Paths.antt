-- ===== src/Namer/Template/Paths.antt =====
-- A rendered path stays below the folder that it is joined to.
use tidal_syncer.Shared.{
  ℕ, ◌≡◌, ◌≢◌, refl, ◌∙◌, ap, ◌⊎◌, false, List, [], ◌∷◌, ◌++◌, Bool-cases, inl, inr, ltb, Text,
  text_eq, nat_eq, ◌==◌, All, arith,
}
use tidal_syncer.Failure.{empty_template, ok, err}
use tidal_syncer.Namer.Sanitize.{sanitize}
use tidal_syncer.Namer.Sanitize.Safety.{
  IsClean, IsCleanByte, IsComponent, sanitize-IsCleanByte, sanitize-IsComponent,
}
use tidal_syncer.Namer.Template.{
  Template, TrackMeta, split, cons_first, join, keep_component, components, disc_dir, with_disc,
  insert_disc_dir, expand, render, render_components,
}

-- A non-empty component of at most 255 clean bytes that does not end in a dot: so none of "", "."
-- and "..", and without a separator.
abbrev pub IsSafe : Text → Type 0
IsSafe s = IsComponent s × All IsCleanByte s

-- Reading a joined path back.
abbrev pub Lacks : ℕ → Text → Type 0
Lacks b s = All (λ c. (c == b) ≡ false) s

split-Lacks : (b : ℕ) (s : Text) → Lacks b s → split b s ≡ s ∷ []
unfolding split cons_first
split-Lacks b [] h = refl
split-Lacks b (c ∷ s) h = rw (h.0, split) (rw (split-Lacks b s h.1))

pub split-append : (b : ℕ) (s t : Text) → Lacks b s → split b (s ++ b ∷ t) ≡ s ∷ split b t
unfolding split cons_first
split-append b [] t h = ground arith
split-append b (c ∷ s) t h = rw (h.0, split) (rw (split-append b s t h.1))

pub split-join :
    (b : ℕ) (s : Text) (ss : List Text)
    → All (Lacks b) (s ∷ ss)
    → split b (join b (s ∷ ss)) ≡ s ∷ ss
unfolding join
split-join b s [] h = split-Lacks b s h.0
split-join b s (t ∷ ts) h =
    split-append b s (join b (t ∷ ts)) h.0 ∙ ap (λ r. s ∷ r) (split-join b t ts h.1)

Lacks-separator : (s : Text) → All IsCleanByte s → Lacks b'/' s
unfolding nat_eq
Lacks-separator [] h = tt
Lacks-separator (c ∷ s) h = (ground (arith, h.0.1), Lacks-separator s h.1)

pub All-Lacks : (ss : List Text) → All IsSafe ss → All (Lacks b'/') ss
All-Lacks [] h = tt
All-Lacks (s ∷ ss) h = (Lacks-separator s h.0.1, All-Lacks ss h.1)

insert_disc_dir-All :
    (P : Text → Type 0) (dir : Text) (cs : List Text)
    → P dir
    → All P cs
    → All P (insert_disc_dir dir cs)
unfolding insert_disc_dir
insert_disc_dir-All P dir [] p h = (p, tt)
insert_disc_dir-All P dir (c ∷ []) p h = (p, h)
insert_disc_dir-All P dir (c ∷ d ∷ ds) p h = (h.0, insert_disc_dir-All P dir (d ∷ ds) p h.1)

module _ (nfc : Text → Text) (keeps : (s : Text) → All IsClean s → All IsClean (nfc s)) where
  sanitize-IsSafe : (s : Text) → IsSafe (sanitize nfc s)
  sanitize-IsSafe s = (sanitize-IsComponent nfc s, sanitize-IsCleanByte nfc keeps s)

  keep_component-IsSafe :
      (s : Text) (rest : List Text) → All IsSafe rest → All IsSafe (keep_component nfc s rest)
  unfolding keep_component
  keep_component-IsSafe [] rest h = h
  keep_component-IsSafe (c ∷ s) rest h = (sanitize-IsSafe (c ∷ s), h)

  components-IsSafe : (t : Template) (m : TrackMeta) → All IsSafe (components nfc t m)
  unfolding components
  components-IsSafe [] m = tt
  components-IsSafe (seg ∷ t) m =
      keep_component-IsSafe (expand seg m) (components nfc t m) (components-IsSafe t m)

  with_disc-IsSafe :
      (m : TrackMeta) (cs : List Text) → All IsSafe cs → All IsSafe (with_disc nfc m cs)
  unfolding with_disc disc_dir
  with_disc-IsSafe m cs h = elim (Bool-cases (ltb 1 m.disc_count)) [
    | inl several ↦ rw several (insert_disc_dir-All IsSafe _ cs (sanitize-IsSafe _) h)
    | inr single ↦ rw single h
  ]

  split-join-IsSafe :
      (ss : List Text) → ss ≢ [] → All IsSafe ss → All IsSafe (split b'/' (join b'/' ss))
  split-join-IsSafe [] ne h = absurd (ne refl)
  split-join-IsSafe (s ∷ ss) ne h = rw (split-join b'/' s ss (All-Lacks (s ∷ ss) h)) h

  with_disc-ne-nil : (m : TrackMeta) (c : Text) (cs : List Text) → with_disc nfc m (c ∷ cs) ≢ []
  unfolding with_disc insert_disc_dir
  with_disc-ne-nil m c [] = ground arith
  with_disc-ne-nil m c (d ∷ ds) = ground arith

  components-nil :
      (t : Template) (m : TrackMeta) → components nfc t m ≡ [] → All (λ seg. expand seg m ≡ []) t
  unfolding components keep_component
  components-nil [] m h = tt
  components-nil (seg ∷ t) m h = (ground arith, components-nil t m (ground arith))

  render_components_lem :
      (m : TrackMeta) (cs : List Text)
      → All IsSafe cs
      → (cs ≡ []) × (render_components nfc m cs ≡ err (empty_template ∷ []))
        ⊎ ((path : Text) × (render_components nfc m cs ≡ ok path) × All IsSafe (split b'/' path))
  unfolding render_components
  render_components_lem m [] h = inl (refl, refl)
  render_components_lem m (c ∷ cs) h = inr (
    join b'/' (with_disc nfc m (c ∷ cs)),
    refl,
    split-join-IsSafe (with_disc nfc m (c ∷ cs)) (with_disc-ne-nil m c cs)
        (with_disc-IsSafe m (c ∷ cs) h),
  )

  -- Either every segment expands to nothing and rendering fails, or it gives a path whose
  -- components, read back at the separators, are all safe: not empty, at most 255 bytes, without
  -- separators and control characters, and not ending in a dot or a space, so neither "." nor "..".
  -- Normalisation is assumed to make no clean text unclean.
  pub render-IsSafe :
      (t : Template) (m : TrackMeta)
      → All (λ seg. expand seg m ≡ []) t × (render nfc t m ≡ err (empty_template ∷ []))
        ⊎ ((path : Text) × (render nfc t m ≡ ok path) × All IsSafe (split b'/' path))
  unfolding render
  render-IsSafe t m = elim (render_components_lem m (components nfc t m) (components-IsSafe t m)) [
    | inl (empty, failed) ↦ inl (components-nil t m empty, failed)
    | inr rendered ↦ inr rendered
  ]
