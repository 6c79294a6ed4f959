-- ===== src/Daemon/Window/Laws.antt =====
-- The next start of the window.
use tidal_syncer.Shared.{
  ℕ, ◌+◌, ◌<◌, ◌≤◌, true, false, Option-cases, inl, inr, arith, ◌≡◌, refl, ◌∙◌, sym, ap, ◌*◌, ◌-◌,
  ◌/◌, ◌%◌, ltb, if◌then◌else◌,
}
use tidal_syncer.Failure.{ok, >>=-eq-ok}
use tidal_syncer.Config.Types.{DaemonTimeWindow}
use tidal_syncer.Config.Clock.{parse_clock, parse_clock_bounds}
use tidal_syncer.Daemon.Window.{
  Location, HasPlainDays, clock_minute, parsed_window_minutes, current_minute, in_window,
  window_contains_now, next_start, next_time_window_start,
}

-- The minute of the day, and the next start, where all days have 24 hours.
abbrev plain_minute : ℕ → ℕ
plain_minute t = t % 86400000000000 / 60000000000

abbrev plain_start : ℕ → ℕ → ℕ
plain_start now start =
    let candidate = now - now % 86400000000000 + start * 60000000000 in
    if ltb now candidate then candidate else candidate + 86400000000000

hour_minute :
    (t : ℕ)
    → t % 86400000000000 / 3600000000000 * 60 + t % 3600000000000 / 60000000000 ≡ plain_minute t
hour_minute t = omega arith

current_minute_plain :
    (location : Location) (t : ℕ)
    → HasPlainDays location
    → current_minute location t ≡ plain_minute t
unfolding current_minute
current_minute_plain location t h = ap (λ (c : ℕ × ℕ). c.0 * 60 + c.1) (h.clocks t) ∙ hour_minute t

next_start_plain :
    (location : Location) (now start : ℕ)
    → HasPlainDays location
    → next_start location now start ≡ plain_start now start
unfolding next_start
next_start_plain location now start h =
    ap (λ (candidate : ℕ). if ltb now candidate then candidate else candidate + 86400000000000)
      (h.dates now (start / 60) (start % 60)
        ∙ ap (λ (m : ℕ). now - now % 86400000000000 + m * 60000000000) whole)
  where
    whole : start / 60 * 60 + start % 60 ≡ start
    whole = omega arith

plain_start_bounds :
    (now start : ℕ)
    → start < 1440
    → (now < plain_start now start) × (plain_start now start ≤ now + 86400000000000)
plain_start_bounds now start b = ground arith

plain_minute_start : (now start : ℕ) → start < 1440 → plain_minute (plain_start now start) ≡ start
plain_minute_start now start b = ground arith

in_window_start : (start end : ℕ) → in_window start end start ≡ true
unfolding in_window
in_window_start start end = ground arith

outside_between :
    (now start end t : ℕ)
    → start < 1440
    → in_window start end (plain_minute now) ≡ false
    → now ≤ t
    → t < plain_start now start
    → in_window start end (plain_minute t) ≡ false
unfolding in_window
outside_between now start end t b o l u = ground arith

-- The start of a window that parses is a minute of the day.
parsed_window_minutes_bounds :
    (window : DaemonTimeWindow) (start end : ℕ)
    → parsed_window_minutes window ≡ ok (start, end)
    → start < 1440
unfolding parsed_window_minutes clock_minute
parsed_window_minutes_bounds window start end e = elim (Option-cases (parse_clock window.start)) [
  | inl n ↦ absurd (ground (arith, rw n at e))
  | inr ((hour, minute), s) ↦ elim (Option-cases (parse_clock window.end)) [
    | inl n ↦ absurd (ground (arith, rw (s, n) at e))
    | inr ((h, m), s') ↦
        ground (arith, parse_clock_bounds window.start hour minute s, rw (s, s') at e)
  ]
]

-- In a location whose days all have 24 hours, and outside a window whose clock texts parse, the next
-- start is found: it lies ahead, at most a day away, and is within the window.
pub next_time_window_start-ahead :
    (location : Location) (now : ℕ) (window : DaemonTimeWindow)
    → HasPlainDays location
    → window_contains_now location now window ≡ ok false
    → (next : ℕ) × (next_time_window_start location now window ≡ ok next)
      × (now < next)
      × (next ≤ now + 86400000000000)
      × (window_contains_now location next window ≡ ok true)
unfolding window_contains_now next_time_window_start
next_time_window_start-ahead location now window plain h =
    let ((start, end), parsed, outside) = >>=-eq-ok (parsed_window_minutes window) _ h in
    let o : in_window start end (current_minute location now) ≡ false = ground (arith, outside) in
    let b = parsed_window_minutes_bounds window start end parsed in
    (
      plain_start now start,
      rw (parsed, o) (ap ok (next_start_plain location now start plain)),
      (plain_start_bounds now start b).0,
      (plain_start_bounds now start b).1,
      rw
          (
            parsed,
            current_minute_plain location (plain_start now start) plain,
            plain_minute_start now start b,
            in_window_start start end,
          )
          refl,
    )

-- In a location whose days all have 24 hours, no instant between now, outside the window, and the next
-- start is within the window: the daemon sleeps through no part of it.
pub next_time_window_start-first :
    (location : Location) (now next t : ℕ) (window : DaemonTimeWindow)
    → HasPlainDays location
    → window_contains_now location now window ≡ ok false
    → next_time_window_start location now window ≡ ok next
    → now ≤ t
    → t < next
    → window_contains_now location t window ≡ ok false
unfolding window_contains_now next_time_window_start
next_time_window_start-first location now next t window plain h k l u =
    let ((start, end), parsed, outside) = >>=-eq-ok (parsed_window_minutes window) _ h in
    let o : in_window start end (current_minute location now) ≡ false = ground (arith, outside) in
    let o' : in_window start end (plain_minute now) ≡ false =
      rw (current_minute_plain location now plain) at o in
    let b = parsed_window_minutes_bounds window start end parsed in
    let found : next_start location now start ≡ next = ground (arith, rw (parsed, o) at k) in
    let ahead : plain_start now start ≡ next =
      sym (next_start_plain location now start plain) ∙ found in
    rw
      (
        parsed,
        current_minute_plain location t plain,
        outside_between now start end t b o' l (rw ahead u),
      )
      refl
