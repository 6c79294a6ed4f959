-- ===== src/Store/Open.antt =====
-- internal/store/store.go, `Open`: the first connection, and the permissions of the database file.
pub mod Wal
use tidal_syncer.Shared.{
  ℕ, zero, suc, ◌+◌, Bool, true, false, not, ◌||◌, Option, none, some, List, [], ◌∷◌, ltb,
  if◌then◌else◌,
}
use tidal_syncer.Failure.{Error, not_exist, sqlite_busy, is, Result, ok, err}

-- `busyTimeoutMs`, in the unit of the clock.
abbrev pub busy_timeout : ℕ
busy_timeout = 5000

-- `retryDelay`
abbrev pub retry_delay : ℕ
retry_delay = 20

-- `isBusy`
abbrev pub is_busy : Error → Bool
is_busy e = is e sqlite_busy

-- What the rounds of the loop meet: the answer of the ping, and the clock behind it.
pub record Pings : Type 0 where
  pub ping : ℕ → Option Error
  pub now : ℕ → ℕ

module _ (pings : Pings) (deadline : ℕ) where
  pinged : Option Error → ℕ → Option (Result (Unit {0})) → Option (Result (Unit {0}))
  pinged none k rest = some (ok tt)
  pinged (some e) k rest =
      if not (is_busy e) || ltb deadline (pings.now k) then some (err e) else rest

  -- At most `fuel` rounds, from the `k`th on; `none` if they are not enough.
  unfoldable pub establish_wal_from : ℕ → ℕ → Option (Result (Unit {0}))
  unfolding pinged
  establish_wal_from zero k = none
  establish_wal_from (suc fuel) k = pinged (pings.ping k) k (establish_wal_from fuel (suc k))

-- `fuel` rounds, from a start at the time `start`.
unfoldable pub establish_wal : Pings → ℕ → ℕ → Option (Result (Unit {0}))
unfolding establish_wal_from
establish_wal pings start fuel = establish_wal_from pings (start + busy_timeout) fuel 0

-- The answer of `os.Chmod`; a file that is not there is no failure.
unfoldable pub tighten_db_file_perms : Option Error → Result (Unit {0})
tighten_db_file_perms none = ok tt
tighten_db_file_perms (some e) = if is e not_exist then ok tt else err e
