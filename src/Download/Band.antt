-- ===== src/Download/Band.antt =====
-- pkg/tidal/download/download.go, `fetchManifest`: the tiers of the band, the highest first.
pub mod Laws
use tidal_syncer.Shared.{
  ℕ, Bool, true, false, ◌||◌, Option, none, some, List, [], ◌∷◌, Text, ltb, leb, if◌then◌else◌,
}
use tidal_syncer.Failure.{Error, below_floor, Result, ok, err}
use tidal_syncer.Tidal.Quality.{Quality, rank, lossless, hi_res_lossless}

pub record Playback : Type 0 where
  pub mime_type : Text
  pub manifest : Text
  pub granted : Quality

-- What the provider answers for a tier, and the context's error behind a call that failed.
pub record Provider : Type 0 where
  pub playback_info : Quality → Result Playback
  pub context : Quality → Option Error

-- What the loop has seen: the last error, and whether a tier below the floor was granted.
pub record Seen : Type 0 where
  pub last : Option Error
  pub sub_floor : Bool

abbrev pub out_of_band : Quality → Quality → Quality → Bool
out_of_band request floor quality =
    ltb (rank request) (rank quality) || ltb (rank quality) (rank floor)

-- Behind the loop.
abbrev none_accepted : Seen → Result Playback
none_accepted seen =
    if seen.sub_floor
    then err (below_floor ∷ [])
    else elim seen.last [ some e ↦ err e | none ↦ err (below_floor ∷ []) ]

unless_cancelled : Option Error → Result Playback → Result Playback
unless_cancelled (some e) rest = err e
unless_cancelled none rest = rest

module _ (provider : Provider) (request floor : Quality) where
  try_tier : Result Playback → Quality → Seen → (Seen → Result Playback) → Result Playback
  unfolding unless_cancelled
  try_tier (err e) quality seen rest =
      unless_cancelled (provider.context quality) (rest (record seen { last = some e }))
  try_tier (ok playback) quality seen rest =
      if leb (rank floor) (rank playback.granted)
      then ok playback
      else rest (record seen { sub_floor = true })

  unfoldable pub fetch_tiers : List Quality → Seen → Result Playback
  unfolding try_tier
  fetch_tiers [] seen = none_accepted seen
  fetch_tiers (quality ∷ tiers) seen =
      if out_of_band request floor quality
      then fetch_tiers tiers seen
      else try_tier (provider.playback_info quality) quality seen (fetch_tiers tiers)

  unfoldable pub fetch_manifest : Result Playback
  unfolding fetch_tiers
  fetch_manifest =
      fetch_tiers (hi_res_lossless ∷ lossless ∷ []) (record { last = none; sub_floor = false })
