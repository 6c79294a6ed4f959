-- ===== src/Auth.antt =====
-- pkg/tidal/auth with internal/authstore and internal/store/tokens.go: the stored token, its refresh, and
-- the device login. An instant is a number of nanoseconds; a stored expiry, a number of seconds.
pub mod Device
pub mod Refresh
use tidal_syncer.Shared.{
  ℕ, ◌+◌, ◌*◌, ◌/◌, Bool, true, false, not, Option, none, some, List, [], ◌∷◌, Text, codes, text_eq,
  nat_eq, ◌==◌, leb, if◌then◌else◌,
}
use tidal_syncer.Shared.Decimal.{itoa}
use tidal_syncer.Failure.{
  Error, not_found, authorization_pending, slow_down, device_code_expired, reauth_required,
  dead_credentials, transient, Result, ok, err, ◌>>=◌,
}

pub record Token : Type 0 where
  pub access_token : Text
  pub refresh_token : Text
  pub expires_at : ℕ
  pub user_id : Text
  pub country_code : Text
  pub session_id : Text

pub record TokenResponse : Type 0 where
  pub access_token : Text
  pub refresh_token : Text
  pub expires_in : ℕ
  pub user_id : ℕ
  pub session_id : Text
  pub country_code : Text

-- What the client's calls answer: the endpoint, the clock when a token is stamped, and the store's
-- statements.
pub record AuthPorts : Type 0 where
  pub exchange : Text → Result TokenResponse
  pub now : ℕ
  pub load_fault : Option Error
  pub save_fault : Option Error

-- The row of the table `tokens`, if there is one.
abbrev pub TokenRow : Type 0
TokenRow = Option Token

found_token : TokenRow → Result Token
found_token none = err (not_found ∷ [])
found_token (some tok) = ok tok

unfoldable pub load_token : Option Error → TokenRow → Result Token
unfolding found_token
load_token none row = found_token row
load_token (some e) row = err e

unfoldable pub save_token : Option Error → Token → TokenRow → Result (Unit {0}) × TokenRow
save_token none tok row = (ok tt, some tok)
save_token (some e) tok row = (err e, row)

-- `formatUserID`
unfoldable pub format_user_id : ℕ → Text
format_user_id id = if id == 0 then [] else itoa id

unfoldable pub expiry_from_now : ℕ → ℕ → ℕ
expiry_from_now now expires_in = (now + expires_in * 1000000000) / 1000000000

unfoldable pub token_from_response : ℕ → TokenResponse → Token
unfolding expiry_from_now format_user_id
token_from_response now tr = record {
  access_token = tr.access_token;
  refresh_token = tr.refresh_token;
  expires_at = expiry_from_now now tr.expires_in;
  user_id = format_user_id tr.user_id;
  country_code = tr.country_code;
  session_id = tr.session_id;
}

abbrev pub if_given : Text → Text → Text
if_given [] old = old
if_given (c ∷ new) old = c ∷ new

unfoldable pub merge_refreshed : Token → TokenResponse → ℕ → Token
unfolding expiry_from_now format_user_id
merge_refreshed current tr now = record {
  access_token = tr.access_token;
  refresh_token = if_given tr.refresh_token current.refresh_token;
  expires_at = expiry_from_now now tr.expires_in;
  user_id = if tr.user_id == 0 then current.user_id else format_user_id tr.user_id;
  country_code = if_given tr.country_code current.country_code;
  session_id = if_given tr.session_id current.session_id;
}

-- Within an hour of the expiry.
unfoldable pub needs_refresh : ℕ → Token → Bool
needs_refresh now tok = leb (tok.expires_at * 1000000000) (now + 3600000000000)

-- The OAuth error of a response that is not 200, empty where the body has none.
unfoldable pub classify_token_error : Text → Error
classify_token_error oauth_error =
    if oauth_error == codes "authorization_pending"
    then authorization_pending ∷ []
    else if oauth_error == codes "slow_down"
    then slow_down ∷ []
    else if oauth_error == codes "expired_token"
    then device_code_expired ∷ []
    else if oauth_error == codes "invalid_grant"
    then reauth_required ∷ []
    else if oauth_error == codes "invalid_client"
    then dead_credentials ∷ []
    else transient ∷ []

module _ (ports : AuthPorts) where
  saved : Token → Result (Unit {0}) × TokenRow → Result Token × TokenRow
  saved tok (ok u, row) = (ok tok, row)
  saved tok (err e, row) = (err e, row)

  exchanged : Token → Result TokenResponse → TokenRow → Result Token × TokenRow
  unfolding saved merge_refreshed
  exchanged current (err e) row = (err e, row)
  exchanged current (ok tr) row =
      let next = merge_refreshed current tr ports.now in
      saved next (save_token ports.save_fault next row)

  refresh_loaded : Result Token → TokenRow → Result Token × TokenRow
  unfolding exchanged
  refresh_loaded (err e) row = (err e, row)
  refresh_loaded (ok current) row = exchanged current (ports.exchange current.refresh_token) row

  unfoldable pub do_refresh : TokenRow → Result Token × TokenRow
  unfolding refresh_loaded
  do_refresh row = refresh_loaded (load_token ports.load_fault row) row

  token_loaded : Result Token → TokenRow → Result Token × TokenRow
  unfolding do_refresh
  token_loaded (err e) row = (err e, row)
  token_loaded (ok tok) row = if needs_refresh ports.now tok then do_refresh row else (ok tok, row)

  -- `TokenSource.Token`, which takes three fields of the token.
  unfoldable pub token : TokenRow → Result Token × TokenRow
  unfolding token_loaded
  token row = token_loaded (load_token ports.load_fault row) row
