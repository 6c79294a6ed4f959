-- ===== src/Daemon.antt =====
-- cmd/daemon.go, cmd/daemon_schedule.go and cmd/daemon_jitter.go: the loops of the daemon. A tick is
-- one turn of a loop: what the context, the clock, the cycle and the wait answer in it.
pub mod Window
pub mod Loop
use tidal_syncer.Shared.{
  ℕ, suc, ◌-◌, Bool, true, false, not, ◌&&◌, Option, none, some, List, [], ◌∷◌, Text, codes,
  text_eq, ◌==◌, if◌then◌else◌,
}
use tidal_syncer.Failure.{
  Error, canceled, another_sync_running, reauth_required, dead_credentials, unknown_daemon_mode, is,
  Result, ok, err,
}
use tidal_syncer.Config.Types.{Daemon, DaemonTimeWindow, mode_polling, mode_time_window}
use tidal_syncer.Daemon.Window.{Location, window_contains_now, next_time_window_start}

pub data Class : Type 0 where
  no_error lock reauth dead_client transient : Class

-- The metric class of a cycle, or the error that stops the loop.
unfoldable pub run_daemon_cycle : Result (Unit {0}) → Result Class
run_daemon_cycle (ok u) = ok no_error
run_daemon_cycle (err e) =
    if is e canceled
    then err e
    else if is e another_sync_running
    then ok lock
    else if is e reauth_required
    then ok reauth
    else if is e dead_credentials
    then ok dead_client
    else ok transient

pub record Tick : Type 0 where
  pub context : Option Error
  pub now : ℕ
  pub cycle : Result (Unit {0})
  pub wait : Result (Unit {0})

-- Where the loop is behind the ticks: it goes on, or it returned. With the classes recorded so far.
pub record Progress : Type 0 where
  pub returned : Option Error
  pub recorded : List Class

abbrev stop : Error → Progress
stop e = record { returned = some e; recorded = [] }

abbrev also : Class → Progress → Progress
also c p = record p { recorded = c ∷ p.recorded }

waited : Result (Unit {0}) → Progress → Progress
waited (ok u) rest = rest
waited (err e) rest = stop e

cycled : Result Class → Result (Unit {0}) → Progress → Progress
unfolding waited
cycled (err e) wait rest = stop e
cycled (ok c) wait rest = also c (waited wait rest)

unless_done : Option Error → Progress → Progress
unless_done (some e) p = stop e
unless_done none p = p

unfoldable pub run_polling_daemon : List Tick → Progress
unfolding cycled unless_done
run_polling_daemon [] = record { returned = none; recorded = [] }
run_polling_daemon (t ∷ ts) =
    unless_done t.context (cycled (run_daemon_cycle t.cycle) t.wait (run_polling_daemon ts))

window_tick : Result Bool → Tick → Progress → Progress
unfolding waited cycled
window_tick (err e) t rest = stop e
window_tick (ok true) t rest = cycled (run_daemon_cycle t.cycle) t.wait rest
window_tick (ok false) t rest = waited t.wait rest

unfoldable pub run_time_window_daemon : Location → DaemonTimeWindow → List Tick → Progress
unfolding window_tick unless_done
run_time_window_daemon location window [] = record { returned = none; recorded = [] }
run_time_window_daemon location window (t ∷ ts) = unless_done t.context (
    window_tick (window_contains_now location t.now window) t
      (run_time_window_daemon location window ts))

-- Whether `runDaemon` has returned, and its error: a cancellation is none.
abbrev returned : Option Error → Option (Result (Unit {0}))
returned none = none
returned (some e) = if is e canceled then some (ok tt) else some (err e)

unfoldable pub run_daemon : Location → Daemon → List Tick → Option (Result (Unit {0}))
unfolding run_polling_daemon run_time_window_daemon
run_daemon location daemon ticks =
    if daemon.mode == mode_polling
    then returned (run_polling_daemon ticks).returned
    else if daemon.mode == mode_time_window
    then returned (run_time_window_daemon location daemon.time_window ticks).returned
    else some (err (unknown_daemon_mode ∷ []))
