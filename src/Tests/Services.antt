-- ===== src/Tests/Services.antt =====
-- The token, the daemon and the downloads.
use tidal_syncer.Shared.{
  ℕ, zero, suc, ◌++◌, ◌+◌, ◌*◌, ◌-◌, ◌/◌, ◌%◌, ltb, if◌then◌else◌, ◌<◌, ◌≤◌, ◌≡◌, ◌⊎◌, inl, refl,
  Bool, true, false, Option, none, some, List, [], ◌∷◌, Text, codes, arith,
}
use tidal_syncer.Failure.{authorization_pending, slow_down, plain, Result, ok, err}
use tidal_syncer.Tidal.Quality.{Quality, lossless, hi_res_lossless, rank}
use tidal_syncer.Config.Types.{DaemonTimeWindow}
use tidal_syncer.Auth.{Token, TokenResponse, AuthPorts, token}
use tidal_syncer.Auth.Refresh.{IsAnswer, token-IsAnswer}
use tidal_syncer.Auth.Device.{Poll, poll_token}
use tidal_syncer.Auth.Device.Polls.{IsLogin, poll_token-IsLogin}
use tidal_syncer.Daemon.{Tick, run_daemon}
use tidal_syncer.Daemon.Loop.{IsOrderly, run_daemon-orderly}
use tidal_syncer.Daemon.Window.{Location, HasPlainDays, window_contains_now, next_time_window_start}
use tidal_syncer.Daemon.Window.Laws.{next_time_window_start-ahead, next_time_window_start-first}
use tidal_syncer.Download.Band.{Playback, Provider, fetch_manifest}
use tidal_syncer.Download.Band.Laws.{IsGranted, fetch_manifest-IsGranted, fetch_manifest-finds}
use tidal_syncer.Download.Stream.{Response, Http, assemble_segments, get_stream}
use tidal_syncer.Download.Stream.Laws.{
  AreBodies, concat, assemble_segments-AreBodies, get_stream-finds,
}
use tidal_syncer.Tests.Data.{config}

abbrev old_token : Token
old_token = record {
  access_token = codes "a";
  refresh_token = codes "r";
  expires_at = 3000;
  user_id = codes "42";
  country_code = codes "DE";
  session_id = [];
}

abbrev response : TokenResponse
response = record {
  access_token = codes "b";
  refresh_token = [];
  expires_in = 7200;
  user_id = 0;
  session_id = [];
  country_code = [];
}

abbrev auth_ports : AuthPorts
auth_ports = record { exchange = λ r. ok response; now = 0; load_fault = none; save_fault = none }

token-IsAnswer_example : IsAnswer auth_ports (some old_token) (token auth_ports (some old_token))
token-IsAnswer_example = token-IsAnswer auth_ports (some old_token)

abbrev poll : Result TokenResponse → Poll
poll r = record { now = 1; response = r; stamped = 2; save_fault = none; wait = ok tt }

abbrev polls : List Poll
polls =
    poll (err (authorization_pending ∷ [])) ∷ poll (err (slow_down ∷ [])) ∷ poll (ok response) ∷ []

poll_token-IsLogin_example : IsLogin polls 2000000000 none (poll_token 9 polls 2000000000 none)
poll_token-IsLogin_example = poll_token-IsLogin 9 polls 2000000000 none

abbrev window : DaemonTimeWindow
window = config.daemon.time_window

-- Noon, and ten in the evening.
abbrev noon : ℕ
noon = 43200000000000

abbrev evening : ℕ
evening = 79200000000000

abbrev utc : Location
utc = record {
  clock = λ t. (t % 86400000000000 / 3600000000000, t % 3600000000000 / 60000000000);
  date = λ t hour minute. t - t % 86400000000000 + (hour * 60 + minute) * 60000000000;
}

utc_days : HasPlainDays utc
utc_days = record { clocks = λ t. refl; dates = λ t hour minute. refl }

next_time_window_start-ahead_example :
    (next : ℕ) × (next_time_window_start utc noon window ≡ ok next)
    × (noon < next)
    × (next ≤ noon + 86400000000000)
    × (window_contains_now utc next window ≡ ok true)
unfolding window_contains_now tidal_syncer.Config.Clock.parse_clock tidal_syncer.Shared.nat_eq
next_time_window_start-ahead_example = next_time_window_start-ahead utc noon window utc_days refl

next_time_window_start-first_example : window_contains_now utc (noon + 1) window ≡ ok false
unfolding window_contains_now next_time_window_start tidal_syncer.Config.Clock.parse_clock
    tidal_syncer.Shared.nat_eq
next_time_window_start-first_example =
    next_time_window_start-first utc noon evening (noon + 1) window utc_days refl refl (omega arith)
      (omega arith)

-- A location whose clock jumps from two to three in the second night.
abbrev jump : ℕ
jump = 93600000000000

abbrev local : ℕ → ℕ
local t = if ltb t jump then t else t + 3600000000000

abbrev global : ℕ → ℕ
global l = if ltb l jump then l else l - 3600000000000

abbrev spring : Location
spring = record {
  clock = λ t. utc.clock (local t);
  date = λ t hour minute. global (utc.date (local t) hour minute);
}

abbrev night : DaemonTimeWindow
night = record window { start = codes "03:00"; end = codes "05:00" }

-- From noon of the day before, the daemon sleeps until four, but the window starts at three.
sleeps_through :
    (next_time_window_start spring noon night ≡ ok 97200000000000)
    × (window_contains_now spring jump night ≡ ok true)
unfolding window_contains_now next_time_window_start tidal_syncer.Config.Clock.parse_clock
    tidal_syncer.Shared.nat_eq
sleeps_through = (refl, refl)

abbrev tick : Tick
tick = record { context = none; now = noon; cycle = err (plain ∷ []); wait = ok tt }

run_daemon-orderly_example :
    (run_daemon utc config.daemon (tick ∷ tick ∷ []) ≡ none)
    ⊎ (run_daemon utc config.daemon (tick ∷ tick ∷ []) ≡ some (ok tt))
run_daemon-orderly_example =
    let orderly : IsOrderly tick = record { context = tt; wait = tt } in
    run_daemon-orderly utc config.daemon (tick ∷ tick ∷ []) (inl refl) (orderly, (orderly, tt))

abbrev playback : Playback
playback = record { mime_type = []; manifest = []; granted = lossless }

-- The tier above LOSSLESS is refused.
abbrev answer : Quality → Result Playback
answer lossless = ok playback
answer q = err (plain ∷ [])

abbrev provider : Provider
provider = record { playback_info = answer; context = λ q. none }

fetch_manifest-IsGranted_example : IsGranted provider hi_res_lossless lossless playback
unfolding fetch_manifest rank
fetch_manifest-IsGranted_example =
    fetch_manifest-IsGranted provider hi_res_lossless lossless playback refl

fetch_manifest-finds_example :
    (got : Playback) × (fetch_manifest provider hi_res_lossless lossless ≡ ok got)
unfolding rank
fetch_manifest-finds_example =
    fetch_manifest-finds provider hi_res_lossless lossless playback refl (omega arith) (omega arith)
      refl (omega arith)

-- The first attempt at every URL fails, the others answer with two bytes.
abbrev attempt : Text → ℕ → Result Response
attempt url zero = err (plain ∷ [])
attempt url (suc k) = ok (record { status = 200; body = ok (1 ∷ 2 ∷ []) })

abbrev http : Http
http = record {
  attempt = attempt;
  context = λ url k. none;
  context_after = λ url. none;
  write = λ bytes dst. none;
}

assemble_segments-AreBodies_example :
    (bodies : List Text) × (1 ∷ 2 ∷ 1 ∷ 2 ∷ [] ≡ [] ++ concat bodies)
    × AreBodies http (codes "a" ∷ codes "b" ∷ []) bodies
unfolding assemble_segments tidal_syncer.Shared.nat_eq
assemble_segments-AreBodies_example =
    assemble_segments-AreBodies http (codes "a" ∷ codes "b" ∷ []) [] (1 ∷ 2 ∷ 1 ∷ 2 ∷ []) refl

get_stream-finds_example :
    (got : Response) × (get_stream http (codes "a") ≡ ok got)
    × (got.status ≡ 200)
    × (j : ℕ) × (j < 3)
    × (attempt (codes "a") j ≡ ok got)
get_stream-finds_example =
    get_stream-finds http (codes "a") 2 (record { status = 200; body = ok (1 ∷ 2 ∷ []) })
      (omega arith) (λ j. refl) refl refl
