-- ===== src/Strconv.antt =====
-- `strconv.Atoi`, which reads a number in front of which a sign may stand. An `int` is its two's
-- complement below 2 ^ 64.
use tidal_syncer.Shared.{
  ℕ, ◌+◌, ◌-◌, ◌*◌, ◌%◌, ◌^◌, ◌&&◌, Option, none, some, [], ◌∷◌, Text, nat_eq, ◌==◌, leb,
  if◌then◌else◌,
}
use tidal_syncer.Failure.{plain, Result, ok, err}

unfoldable pub read_digits : ℕ → Text → Option ℕ
read_digits v [] = some v
read_digits v (c ∷ s) =
    let rest = read_digits (v * 10 + (c - b'0')) s in
    if leb b'0' c && leb c b'9' then rest else none

abbrev pub digits : Text → Option ℕ
digits [] = none
digits (c ∷ s) = read_digits 0 (c ∷ s)

abbrev within : ℕ → (ℕ → ℕ) → Option ℕ → Result ℕ
within limit f none = err (plain ∷ [])
within limit f (some n) = if leb n limit then ok (f n) else err (plain ∷ [])

-- An error where there are no digits, or the number is out of range.
unfoldable pub atoi : Text → Result ℕ
unfolding read_digits
atoi [] = err (plain ∷ [])
atoi (c ∷ s) =
    if c == b'-'
    then within (2 ^ 63) (λ n. (2 ^ 64 - n) % 2 ^ 64) (digits s)
    else if c == b'+'
    then within (2 ^ 63 - 1) (λ n. n) (digits s)
    else within (2 ^ 63 - 1) (λ n. n) (digits (c ∷ s))
