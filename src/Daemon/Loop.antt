-- ===== src/Daemon/Loop.antt =====
-- What stops the daemon.
use tidal_syncer.Shared.{
  ℕ, Bool, true, false, Bool-cases, ◌⊎◌, inl, inr, Option, none, some, List, [], ◌∷◌, text_eq, ◌==◌,
  All, arith, ◌≡◌, ◌≢◌, refl,
}
use tidal_syncer.Failure.{Error, canceled, is, Result, ok, err}
use tidal_syncer.Config.Types.{Daemon, DaemonTimeWindow, mode_polling, mode_time_window}
use tidal_syncer.Daemon.Window.{Location, window_contains_now, parsed_window_minutes}
use tidal_syncer.Daemon.{
  Class, run_daemon_cycle, Tick, Progress, waited, cycled, unless_done, run_polling_daemon,
  window_tick, run_time_window_daemon, returned, run_daemon,
}

-- An error is none, or a cancellation.
abbrev pub IsCancellation : Option Error → Type 0
IsCancellation none = Unit
IsCancellation (some e) = is e canceled ≡ true

abbrev pub failure : Result (Unit {0}) → Option Error
failure (ok u) = none
failure (err e) = some e

-- The context and the wait of a tick fail by cancellation only; its cycle fails as it will.
pub record IsOrderly (t : Tick) : Type 0 where
  pub context : IsCancellation t.context
  pub wait : IsCancellation (failure t.wait)

waited-IsCancellation :
    (w : Result (Unit {0})) (p : Progress)
    → IsCancellation (failure w)
    → IsCancellation p.returned
    → IsCancellation (waited w p).returned
unfolding waited
waited-IsCancellation (ok u) p h k = k
waited-IsCancellation (err e) p h k = h

run_daemon_cycle-eq-err :
    (r : Result (Unit {0})) (e : Error) → run_daemon_cycle r ≡ err e → is e canceled ≡ true
unfolding run_daemon_cycle
run_daemon_cycle-eq-err (ok u) e h = absurd (ground arith)
run_daemon_cycle-eq-err (err x) e h = ground (arith, h)

cycled-IsCancellation :
    (r : Result Class) (w : Result (Unit {0})) (p : Progress)
    → ((e : Error) → r ≡ err e → is e canceled ≡ true)
    → IsCancellation (failure w)
    → IsCancellation p.returned
    → IsCancellation (cycled r w p).returned
unfolding cycled
cycled-IsCancellation (err e) w p c h k = c e refl
cycled-IsCancellation (ok l) w p c h k = waited-IsCancellation w p h k

unless_done-IsCancellation :
    (o : Option Error) (p : Progress)
    → IsCancellation o
    → IsCancellation p.returned
    → IsCancellation (unless_done o p).returned
unfolding unless_done
unless_done-IsCancellation none p h k = k
unless_done-IsCancellation (some e) p h k = h

polling-IsCancellation :
    (ts : List Tick) → All IsOrderly ts → IsCancellation (run_polling_daemon ts).returned
unfolding run_polling_daemon
polling-IsCancellation [] h = tt
polling-IsCancellation (t ∷ ts) h = unless_done-IsCancellation t.context _ h.0.context (
    cycled-IsCancellation (run_daemon_cycle t.cycle) t.wait (run_polling_daemon ts)
      (run_daemon_cycle-eq-err t.cycle) h.0.wait (polling-IsCancellation ts h.1))

-- The clock texts of the window parse.
abbrev pub IsParsed : DaemonTimeWindow → Type 0
IsParsed window = (start : ℕ) × (end : ℕ) × (parsed_window_minutes window ≡ ok (start, end))

window_tick-IsCancellation :
    (r : Result Bool) (t : Tick) (p : Progress)
    → ((e : Error) → r ≢ err e)
    → IsCancellation (failure t.wait)
    → IsCancellation p.returned
    → IsCancellation (window_tick r t p).returned
unfolding window_tick
window_tick-IsCancellation (err e) t p n h k = absurd (n e refl)
window_tick-IsCancellation (ok true) t p n h k =
    cycled-IsCancellation (run_daemon_cycle t.cycle) t.wait p (run_daemon_cycle-eq-err t.cycle) h k
window_tick-IsCancellation (ok false) t p n h k = waited-IsCancellation t.wait p h k

window_contains_now-ne-err :
    (location : Location) (window : DaemonTimeWindow) (now : ℕ)
    → IsParsed window
    → (e : Error) → window_contains_now location now window ≢ err e
unfolding window_contains_now
window_contains_now-ne-err location window now (start, end, p) e h =
    absurd (ground (arith, rw p at h))

time_window-IsCancellation :
    (location : Location) (window : DaemonTimeWindow) (ts : List Tick)
    → IsParsed window
    → All IsOrderly ts
    → IsCancellation (run_time_window_daemon location window ts).returned
unfolding run_time_window_daemon
time_window-IsCancellation location window [] q h = tt
time_window-IsCancellation location window (t ∷ ts) q h =
    unless_done-IsCancellation t.context _ h.0.context (
      window_tick-IsCancellation (window_contains_now location t.now window) t
        (run_time_window_daemon location window ts)
        (window_contains_now-ne-err location window t.now q) h.0.wait
        (time_window-IsCancellation location window ts q h.1))

returned_lem :
    (o : Option Error) → IsCancellation o → (returned o ≡ none) ⊎ (returned o ≡ some (ok tt))
returned_lem none h = inl refl
returned_lem (some e) h = inr (rw h refl)

-- In polling mode, or in the mode of the time window with clock texts that parse, while the context and
-- the waits fail by cancellation only, the daemon runs on or has returned without an error, whatever its
-- cycles answer.
pub run_daemon-orderly :
    (location : Location) (daemon : Daemon) (ts : List Tick)
    → (daemon.mode ≡ mode_polling)
      ⊎ ((daemon.mode ≡ mode_time_window) × IsParsed daemon.time_window)
    → All IsOrderly ts
    → (run_daemon location daemon ts ≡ none) ⊎ (run_daemon location daemon ts ≡ some (ok tt))
unfolding run_daemon
run_daemon-orderly location daemon ts m h = elim (Bool-cases (daemon.mode == mode_polling)) [
  | inl e ↦ rw e (returned_lem (run_polling_daemon ts).returned (polling-IsCancellation ts h))
  | inr e ↦ elim m [
    | inl p ↦ absurd (ground (arith, e, p))
    | inr (p, q) ↦
        let w : (daemon.mode == mode_time_window) ≡ true = ground (arith, p) in
        rw (e, w)
          (returned_lem (run_time_window_daemon location daemon.time_window ts).returned
            (time_window-IsCancellation location daemon.time_window ts q h))
  ]
]
