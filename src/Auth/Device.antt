-- ===== src/Auth/Device.antt =====
-- pkg/tidal/auth/device.go, `PollToken`: one turn of its loop reads the clock, polls and waits.
pub mod Polls
use tidal_syncer.Shared.{
  ℕ, ◌+◌, Bool, true, false, not, Option, none, some, List, [], ◌∷◌, ltb, if◌then◌else◌,
}
use tidal_syncer.Failure.{
  Error, authorization_pending, slow_down, device_code_expired, is, Result, ok, err,
}
use tidal_syncer.Auth.{Token, TokenResponse, TokenRow, save_token, token_from_response}

pub record Poll : Type 0 where
  pub now : ℕ
  pub response : Result TokenResponse
  -- The clock when the token is stamped, and the error of the statement that saves it.
  pub stamped : ℕ
  pub save_fault : Option Error
  pub wait : Result (Unit {0})

-- Behind the turns: the answer, if the loop returned, the store, and the waits in nanoseconds.
pub record Login : Type 0 where
  pub answer : Option (Result (Unit {0}))
  pub row : TokenRow
  pub waits : List ℕ

abbrev pub slow_down_increase : ℕ
slow_down_increase = 5000000000

abbrev stop : Result (Unit {0}) → TokenRow → Login
stop r row = record { answer = some r; row = row; waits = [] }

saved_login : Result (Unit {0}) × TokenRow → Login
saved_login (r, row) = stop r row

-- A wait that the context ends stops the loop.
waited : ℕ → Result (Unit {0}) → TokenRow → Login → Login
waited interval (ok u) row rest = record rest { waits = interval ∷ rest.waits }
waited interval (err e) row rest = record {
  answer = some (err e);
  row = row;
  waits = interval ∷ [];
}

answered : Poll → Result TokenResponse → ℕ → TokenRow → (ℕ → Login) → Login
unfolding saved_login waited
answered p (ok tr) interval row rest =
    saved_login (save_token p.save_fault (token_from_response p.stamped tr) row)
answered p (err e) interval row rest =
    let slower = rest (interval + slow_down_increase) in
    let same = rest interval in
    if is e authorization_pending
    then waited interval p.wait row same
    else if is e slow_down
    then waited (interval + slow_down_increase) p.wait row slower
    else stop (err e) row

unfoldable pub poll_token : ℕ → List Poll → ℕ → TokenRow → Login
unfolding answered
poll_token expiry [] interval row = record { answer = none; row = row; waits = [] }
poll_token expiry (p ∷ ps) interval row =
    let next = answered p p.response interval row (λ i. poll_token expiry ps i row) in
    if ltb p.now expiry then next else stop (err (device_code_expired ∷ [])) row
