-- ===== src/Tidal/Quality.antt =====
-- pkg/tidal/quality.go: the audio tiers and their order.
use tidal_syncer.Shared.{ℕ, ◌≤◌, ◌≡◌, ◌↔◌, Bool, true, false, arith, Text, codes}

-- A wire string outside the four constants is `other`, with the string.
pub data Quality : Type 0 where
  hi_res_lossless lossless high low : Quality
  other : Text → Quality

-- The empty string, of a column that has no tier.
abbrev pub no_quality : Quality
no_quality = other (codes "")

unfoldable pub rank : Quality → ℕ
rank hi_res_lossless = 4
rank lossless = 3
rank high = 2
rank low = 1
rank (other wire) = 0

unfoldable pub meets_lossless_floor : Quality → Bool
meets_lossless_floor hi_res_lossless = true
meets_lossless_floor lossless = true
meets_lossless_floor q = false

-- A tier meets the lossless floor exactly when it ranks at least as high as LOSSLESS.
pub meets_lossless_floor-rank :
    (q : Quality) → (meets_lossless_floor q ≡ true) ↔ (rank lossless ≤ rank q)
unfolding meets_lossless_floor rank
meets_lossless_floor-rank q = ground arith
