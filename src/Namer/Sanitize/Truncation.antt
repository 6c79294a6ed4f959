-- ===== src/Namer/Sanitize/Truncation.antt =====
-- `truncateToBytes` against its description.
use native.Mathlib.Decide.{dec_le}
use tidal_syncer.Shared.{
  ℕ, zero, suc, ◌≤◌, ◌<◌, ◌≡◌, ◌⊎◌, true, false, leb, Bool-cases, inl, inr, Text, length, get_or,
  take, arith,
}
use tidal_syncer.Namer.Utf8.{rune_start}
use tidal_syncer.Namer.Sanitize.{back_off, truncate_to_bytes}

-- The cut is at most `n`, at the start of a rune unless it is 0, and no later start is that early.
pub record IsCut (s : Text) (n k : ℕ) : Type 0 where
  pub within : k ≤ n
  pub boundary : 0 < k → rune_start (get_or s k 0) ≡ true
  pub maximal : (j : ℕ) → k < j → j ≤ n → rune_start (get_or s j 0) ≡ false

back_off-IsCut : (s : Text) (n : ℕ) → IsCut s n (back_off s n)
unfolding back_off
back_off-IsCut s zero = record {
  within = omega arith;
  boundary = λ h. absurd (omega arith);
  maximal = λ j h k. absurd (omega arith);
}
back_off-IsCut s (suc n) = elim (Bool-cases (rune_start (get_or s (suc n) 0))) [
  | inl start ↦
      rw (start, back_off)
        (record {
          within = omega arith;
          boundary = λ h. start;
          maximal = λ j h k. absurd (omega arith);
        })
  | inr inside ↦
      let ih : IsCut s n (back_off s n) = back_off-IsCut s n in
      rw (inside, back_off)
        (record {
          within = omega (arith, ih.within);
          boundary = ih.boundary;
          maximal = λ j h k. elim (dec_le j n) [
            | yes early ↦ ih.maximal j h early
            | no late ↦ let last : j ≡ suc n = omega arith in rw last inside
          ];
        })
]

-- A text that fits is kept; a longer one is cut to the longest prefix of at most `n` bytes that ends
-- where a rune starts.
pub truncate_to_bytes_lem :
    (s : Text) (n : ℕ)
    → ((length s ≤ n) × (truncate_to_bytes s n ≡ s))
      ⊎ ((n < length s) × (k : ℕ) × (truncate_to_bytes s n ≡ take k s) × IsCut s n k)
unfolding truncate_to_bytes
truncate_to_bytes_lem s n = elim (Bool-cases (leb (length s) n)) [
  | inl h ↦ inl (ground (arith, h), ground (arith, h))
  | inr h ↦ inr (ground (arith, h), back_off s n, ground (arith, h), back_off-IsCut s n)
]
