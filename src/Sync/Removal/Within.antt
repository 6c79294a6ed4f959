-- ===== src/Sync/Removal/Within.antt =====
-- Which paths are within the music root.
use tidal_syncer.Shared.{
  Bool, true, false, Bool-cases, Option-cases, inl, inr, ◌↔◌, none, some, List, [], ◌∷◌, ◌++◌, Text,
  text_eq, ◌==◌, if◌then◌else◌, arith, ◌≡◌, refl, sym,
}
use tidal_syncer.Files.Path.{FilePath, rel, rel_parts, ups, dot_dot}
use tidal_syncer.Sync.Removal.{within_music, starts_up}

starts_up-ups : (r : List Text) → starts_up (dot_dot ∷ r) ≡ true
starts_up-ups r = ground arith

no_ups :
    (b : Bool) (base r : List Text)
    → (if b then none else some (dot_dot ∷ base)) ≡ some r
    → starts_up r ≡ true
no_ups true base r e = absurd (ground arith)
no_ups false base r e =
    let same : dot_dot ∷ base ≡ r = ground (arith, e) in rw (sym same) (starts_up-ups base)

rel_parts-eq-some :
    (base target r : List Text)
    → rel_parts base target ≡ some r
    → starts_up r ≡ false
    → target ≡ base ++ r
unfolding rel_parts
rel_parts-eq-some [] target r e n = ground (arith, e)
rel_parts-eq-some (b ∷ base) [] r e n =
    absurd (ground (arith, no_ups (b == dot_dot) (ups base []) r e))
rel_parts-eq-some (b ∷ base) (t ∷ target) r e n = elim (Bool-cases (b == t)) [
  | inl same ↦ ground (arith, same, rel_parts-eq-some base target r (rw same at e) n)
  | inr apart ↦
      absurd (ground (arith, no_ups (b == dot_dot) (ups base (t ∷ target)) r (rw apart at e)))
]

rel_parts-append : (base r : List Text) → rel_parts base (base ++ r) ≡ some r
unfolding rel_parts
rel_parts-append [] r = refl
rel_parts-append (b ∷ base) r = ground (arith, rel_parts-append base r)

rel-eq-some :
    (base target : FilePath) (r : List Text)
    → rel base target ≡ some r
    → (target.rooted ≡ base.rooted) × (rel_parts base.parts target.parts ≡ some r)
unfolding rel
rel-eq-some base target r e = (ground (arith, e), ground (arith, e))

pub rel-append :
    (base : FilePath) (r : List Text) → rel base (record base { parts = base.parts ++ r }) ≡ some r
unfolding rel
rel-append base r = ground (arith, rel_parts-append base.parts r)

-- Exactly the paths that extend the root's components, rooted like it, by components that do not
-- start with ".." are within the music root.
pub within_music_lem :
    (music path : FilePath)
    → (within_music music path ≡ true) ↔ (
        (r : List Text) × (path ≡ record music { parts = music.parts ++ r })
        × (starts_up r ≡ false))
unfolding within_music
within_music_lem music path = (
  λ h. elim (Option-cases (rel music path)) [
    | inl e ↦ absurd (ground (arith, h, e))
    | inr (r, e) ↦
        let up : starts_up r ≡ false = ground (arith, h, e) in
        let (rooted, parts) = rel-eq-some music path r e in
        (
          r,
          λ i. record {
            rooted = rooted i;
            parts = rel_parts-eq-some music.parts path.parts r parts up i;
          },
          up,
        )
  ],
  λ (r, e, n). rw (e, rel-append music r) (ground (arith, n)),
)
