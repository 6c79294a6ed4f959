-- ===== src/Manifest/Mpd/Document.antt =====
-- What is read of a document: its first representation, and the number of its segments.
use tidal_syncer.Shared.{
  ℕ, ◌+◌, ◌%◌, ◌^◌, Option, none, some, List, [], ◌∷◌, ◌++◌, map, arith, ◌≡◌, refl, ◌∙◌, ap, sym,
}
use tidal_syncer.Manifest.Mpd.{
  MpdSegment, AdaptationSet, Representation, Period, MpdDocument, add_int, total_from,
  total_segments, first_of_sets, first_of_periods, first_in, or_else, first_representation,
}

-- All representations in document order, each with its adaptation set.
abbrev pub of_sets : List AdaptationSet → List (AdaptationSet × Representation)
of_sets [] = []
of_sets (set ∷ sets) = map (λ rep. (set, rep)) set.representations ++ of_sets sets

abbrev pub of_periods : List Period → List (AdaptationSet × Representation)
of_periods [] = []
of_periods (p ∷ ps) = of_sets p.adaptation_sets ++ of_periods ps

abbrev pub first : {A : Type 0} → List A → Option A
first [] = none
first (x ∷ xs) = some x

first-append : {A : Type 0} (xs ys : List A) → first (xs ++ ys) ≡ or_else (first xs) (first ys)
first-append [] ys = refl
first-append (x ∷ xs) ys = refl

first_in-eq-first :
    (set : AdaptationSet) (reps : List Representation)
    (rest : List (AdaptationSet × Representation))
    → first_in set reps (first rest) ≡ first (map (λ rep. (set, rep)) reps ++ rest)
first_in-eq-first set [] rest = refl
first_in-eq-first set (rep ∷ reps) rest = refl

first_of_sets-eq-first : (sets : List AdaptationSet) → first_of_sets sets ≡ first (of_sets sets)
unfolding first_of_sets
first_of_sets-eq-first [] = refl
first_of_sets-eq-first (set ∷ sets) =
    rw (first_of_sets-eq-first sets) (first_in-eq-first set set.representations (of_sets sets))

first_of_periods-eq-first : (ps : List Period) → first_of_periods ps ≡ first (of_periods ps)
unfolding first_of_periods
first_of_periods-eq-first [] = refl
first_of_periods-eq-first (p ∷ ps) =
    rw (first_of_sets-eq-first p.adaptation_sets, first_of_periods-eq-first ps)
      (sym (first-append (of_sets p.adaptation_sets) (of_periods ps)))

pub first_representation-eq-first :
    (doc : MpdDocument) → first_representation doc ≡ first (of_periods doc.periods)
unfolding first_representation
first_representation-eq-first doc = first_of_periods-eq-first doc.periods

-- The number of segments without a bound on its size: one for each entry, and its repeats.
abbrev pub segments : List MpdSegment → ℕ
segments [] = 0
segments (s ∷ ss) = 1 + s.repeat + segments ss

total_from-eq-segments :
    (total : ℕ) (ss : List MpdSegment)
    → total_from (total % 2 ^ 64) ss ≡ (total + segments ss) % 2 ^ 64
unfolding total_from
total_from-eq-segments total [] = omega arith
total_from-eq-segments total (s ∷ ss) =
    ap (λ t. total_from t ss) (wrapped total s.repeat)
    ∙ total_from-eq-segments (total + (1 + s.repeat)) ss
    ∙ ap (λ n. n % 2 ^ 64) (omega arith)
  where
    wrapped : (t r : ℕ) → add_int (t % 2 ^ 64) (add_int 1 r) ≡ (t + (1 + r)) % 2 ^ 64
    wrapped t r = omega arith

pub total_segments-eq-segments : (ss : List MpdSegment) → total_segments ss ≡ segments ss % 2 ^ 64
unfolding total_segments
total_segments-eq-segments ss = total_from-eq-segments 0 ss ∙ ap (λ n. n % 2 ^ 64) (omega arith)
