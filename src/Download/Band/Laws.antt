-- ===== src/Download/Band/Laws.antt =====
-- Which playback a download gets.
use tidal_syncer.Shared.{
  ◌≤◌, true, false, Bool-cases, Option-cases, ◌⊎◌, inl, inr, none, some, List, [], ◌∷◌, leb, arith,
  ◌≡◌, refl, ◌∙◌, sym, ap,
}
use tidal_syncer.Failure.{Error, Result, ok, err}
use tidal_syncer.Tidal.Quality.{Quality, rank, lossless, hi_res_lossless}
use tidal_syncer.Download.Band.{
  Playback, Provider, Seen, out_of_band, none_accepted, unless_cancelled, try_tier, fetch_tiers,
  fetch_manifest,
}

module _ (provider : Provider) (request floor : Quality) where
  -- The answer to a tier of the band that grants at least the floor.
  pub record IsGranted (p : Playback) : Type 0 where
    pub tier : Quality
    pub answer : provider.playback_info tier ≡ ok p
    pub above_floor : rank floor ≤ rank tier
    pub below_request : rank tier ≤ rank request
    pub granted : rank floor ≤ rank p.granted

  none_accepted-ne-ok : (seen : Seen) (p : Playback) → ¬ (none_accepted seen ≡ ok p)
  none_accepted-ne-ok seen p h = elim (Bool-cases seen.sub_floor) [
    | inl b ↦ absurd (ground (arith, rw b at h))
    | inr b ↦ elim (Option-cases seen.last) [
      | inl n ↦ absurd (ground (arith, rw (b, n) at h))
      | inr (e, n) ↦ absurd (ground (arith, rw (b, n) at h))
    ]
  ]

  -- A tier of the band is accepted, or the loop goes on, or the context is done.
  try_tier-cases :
      (q : Quality) (r : Result Playback) (seen : Seen) (rest : Seen → Result Playback)
      → ((p : Playback) × (r ≡ ok p)
          × (rank floor ≤ rank p.granted)
          × (try_tier provider request floor r q seen rest ≡ ok p))
        ⊎ ((later : Seen) × (try_tier provider request floor r q seen rest ≡ rest later))
        ⊎ ((e : Error) × (provider.context q ≡ some e)
            × (try_tier provider request floor r q seen rest ≡ err e))
  unfolding try_tier unless_cancelled
  try_tier-cases q (err e) seen rest = elim (Option-cases (provider.context q)) [
    | inl c ↦ inr (inl (record seen { last = some e }, rw c refl))
    | inr (x, c) ↦ inr (inr (x, c, rw c refl))
  ]
  try_tier-cases q (ok p) seen rest = elim (Bool-cases (leb (rank floor) (rank p.granted))) [
    | inl b ↦ inl (p, refl, ground (arith, b), rw b refl)
    | inr b ↦ inr (inl (record seen { sub_floor = true }, rw b refl))
  ]

  fetch_tiers-IsGranted :
      (tiers : List Quality) (seen : Seen) (p : Playback)
      → fetch_tiers provider request floor tiers seen ≡ ok p
      → IsGranted p
  unfolding fetch_tiers
  fetch_tiers-IsGranted [] seen p h = absurd (none_accepted-ne-ok seen p h)
  fetch_tiers-IsGranted (q ∷ tiers) seen p h = elim (Bool-cases (out_of_band request floor q)) [
    | inl o ↦ fetch_tiers-IsGranted tiers seen p (rw o at h)
    | inr o ↦
        let k = rw o at h in
        elim (try_tier-cases q (provider.playback_info q) seen
          (fetch_tiers provider request floor tiers)) [
            | inl (p', answer, enough, taken) ↦
                let same : p' ≡ p = ground (arith, sym taken ∙ k) in
                record {
                  tier = q;
                  answer = rw answer (ap ok same);
                  above_floor = ground (arith, o);
                  below_request = ground (arith, o);
                  granted = rw (sym same) enough;
                }
            | inr (inl (later, goes_on)) ↦ fetch_tiers-IsGranted tiers later p (sym goes_on ∙ k)
            | inr (inr (e, c, stopped)) ↦ absurd (ground (arith, sym stopped ∙ k))
          ]
  ]

  fetch_tiers-finds :
      (q : Quality) (tiers : List Quality) (seen : Seen) (p : Playback)
      → out_of_band request floor q ≡ false
      → provider.playback_info q ≡ ok p
      → rank floor ≤ rank p.granted
      → fetch_tiers provider request floor (q ∷ tiers) seen ≡ ok p
  unfolding fetch_tiers try_tier
  fetch_tiers-finds q tiers seen p o a g =
      let enough : leb (rank floor) (rank p.granted) ≡ true = ground (arith, g) in
      rw (o, a, enough) refl

-- What `fetchManifest` returns is the answer to a tier between the floor and the request, and grants a
-- tier that ranks at least as high as the floor.
pub fetch_manifest-IsGranted :
    (provider : Provider) (request floor : Quality) (p : Playback)
    → fetch_manifest provider request floor ≡ ok p
    → IsGranted provider request floor p
unfolding fetch_manifest
fetch_manifest-IsGranted provider request floor p h =
    fetch_tiers-IsGranted provider request floor (hi_res_lossless ∷ lossless ∷ [])
      (record { last = none; sub_floor = false }) p h

-- While the context lasts, a band that allows LOSSLESS, which the provider grants at or above the floor,
-- gets a playback: `fetchManifest` does not fail, whatever the provider answers for the tier above.
pub fetch_manifest-finds :
    (provider : Provider) (request floor : Quality) (p : Playback)
    → provider.context hi_res_lossless ≡ none
    → rank lossless ≤ rank request
    → rank floor ≤ rank lossless
    → provider.playback_info lossless ≡ ok p
    → rank floor ≤ rank p.granted
    → (got : Playback) × (fetch_manifest provider request floor ≡ ok got)
unfolding fetch_manifest fetch_tiers
fetch_manifest-finds provider request floor p c r f a g =
    let band : out_of_band request floor lossless ≡ false = ground (arith, r, f) in
    let rest =
      λ (seen : Seen). fetch_tiers-finds provider request floor lossless [] seen p band a g in
    elim (Bool-cases (out_of_band request floor hi_res_lossless)) [
      | inl o ↦ (p, rw o (rest (record { last = none; sub_floor = false })))
      | inr o ↦
          elim (try_tier-cases provider request floor hi_res_lossless
            (provider.playback_info hi_res_lossless) (record { last = none; sub_floor = false })
            (fetch_tiers provider request floor (lossless ∷ []))) [
              | inl (p', answer, enough, taken) ↦ (p', rw o taken)
              | inr (inl (later, goes_on)) ↦ (p, rw o (goes_on ∙ rest later))
              | inr (inr (e, d, stopped)) ↦ absurd (ground (arith, sym c ∙ d))
            ]
    ]
