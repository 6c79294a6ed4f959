-- ===== src/Config/Clock.antt =====
-- The clock texts of config: `time.Parse("15:04", value)`, and internal/config/validate.go's stricter
-- `validateClock`.
use tidal_syncer.Shared.{
  ℕ, ◌+◌, ◌*◌, ◌-◌, ◌<◌, ◌≡◌, Bool, ◌&&◌, Option, none, some, [], ◌∷◌, Text, nat_eq, ◌==◌, leb, ltb,
  if◌then◌else◌, arith,
}

pub is_digit : ℕ → Bool
is_digit c = leb b'0' c && leb c b'9'

-- The hour is below 24 and the minute below 60.
in_range : ℕ → ℕ → Option (ℕ × ℕ)
in_range hour minute = if ltb hour 24 && ltb minute 60 then some (hour, minute) else none

two_digits : ℕ → ℕ → ℕ
two_digits a b = (a - b'0') * 10 + (b - b'0')

-- The hour has one digit or two, the minute two.
unfoldable pub parse_clock : Text → Option (ℕ × ℕ)
unfolding is_digit in_range two_digits
parse_clock (h ∷ sep ∷ m ∷ n ∷ []) =
    if is_digit h && (sep == b':' && (is_digit m && is_digit n))
    then in_range (h - b'0') (two_digits m n)
    else none
parse_clock (g ∷ h ∷ sep ∷ m ∷ n ∷ []) =
    if is_digit g && (is_digit h && (sep == b':' && (is_digit m && is_digit n)))
    then in_range (two_digits g h) (two_digits m n)
    else none
parse_clock s = none

-- A parsed clock is a time of day.
pub parse_clock_bounds :
    (s : Text) (hour minute : ℕ) → parse_clock s ≡ some (hour, minute) → (hour < 24) × (minute < 60)
unfolding parse_clock
parse_clock_bounds (h ∷ sep ∷ m ∷ n ∷ []) hour minute e = ground arith
parse_clock_bounds (g ∷ h ∷ sep ∷ m ∷ n ∷ []) hour minute e = ground arith
parse_clock_bounds s hour minute e = cc
