-- ===== src/Daemon/Window.antt =====
-- cmd/daemon_schedule.go: the daily time window. An instant is a number of nanoseconds; the location of
-- the clock is a parameter.
pub mod Laws
use tidal_syncer.Shared.{
  ℕ, ◌+◌, ◌*◌, ◌-◌, ◌/◌, ◌%◌, Bool, true, false, ◌&&◌, ◌||◌, Option, none, some, List, [], ◌∷◌,
  Text, ltb, leb, if◌then◌else◌, ◌≡◌,
}
use tidal_syncer.Failure.{plain, Result, ok, err, ◌>>=◌}
use tidal_syncer.Config.Types.{DaemonTimeWindow}
use tidal_syncer.Config.Clock.{parse_clock}

abbrev pub nanos_per_minute : ℕ
nanos_per_minute = 60000000000

abbrev pub nanos_per_day : ℕ
nanos_per_day = 86400000000000

clock_minute : Option (ℕ × ℕ) → Result ℕ
clock_minute none = err (plain ∷ [])
clock_minute (some (hour, minute)) = ok (hour * 60 + minute)

unfoldable pub parsed_window_minutes : DaemonTimeWindow → Result (ℕ × ℕ)
unfolding clock_minute
parsed_window_minutes window = do
  start ← clock_minute (parse_clock window.start)
  end ← clock_minute (parse_clock window.end)
  ok (start, end)

-- What package time gives for a location: the hour and the minute of an instant, and the instant of an
-- hour and a minute on the date of another one, which is `time.Date` with that date.
pub record Location : Type 0 where
  pub clock : ℕ → ℕ × ℕ
  pub date : ℕ → ℕ → ℕ → ℕ

unfoldable pub current_minute : Location → ℕ → ℕ
current_minute location now = let (hour, minute) = location.clock now in hour * 60 + minute

unfoldable pub in_window : ℕ → ℕ → ℕ → Bool
in_window start end m = if ltb start end then leb start m && ltb m end else leb start m || ltb m end

unfoldable pub window_contains_now : Location → ℕ → DaemonTimeWindow → Result Bool
unfolding parsed_window_minutes current_minute in_window
window_contains_now location now window = do
  minutes ← parsed_window_minutes window
  ok (in_window minutes.0 minutes.1 (current_minute location now))

-- The start minute on the date of now, or 24 hours behind it.
unfoldable pub next_start : Location → ℕ → ℕ → ℕ
next_start location now start =
    let candidate = location.date now (start / 60) (start % 60) in
    if ltb now candidate then candidate else candidate + 86400000000000

unfoldable pub next_time_window_start : Location → ℕ → DaemonTimeWindow → Result ℕ
unfolding window_contains_now next_start
next_time_window_start location now window = do
  inside ← window_contains_now location now window
  minutes ← parsed_window_minutes window
  ok (if inside then now else next_start location now minutes.0)

-- A location whose days all have 24 hours, with instants counted from one of its midnights: what
-- package time documents for one without changes of its offset, such as UTC.
pub record HasPlainDays (location : Location) : Type 0 where
  pub clocks :
      (t : ℕ)
      → location.clock t ≡ (t % 86400000000000 / 3600000000000, t % 3600000000000 / 60000000000)
  pub dates :
      (t hour minute : ℕ)
      → location.date t hour minute ≡ t - t % 86400000000000 + (hour * 60 + minute) * 60000000000
