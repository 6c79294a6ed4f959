-- ===== src/Tidal/Client.antt =====
-- pkg/tidal/client.go, errors.go, tracks.go, genre.go and backoff.go: one request to the API, and the
-- wait before it is tried again. The retries themselves are the HTTP library's, which calls `Backoff`
-- and, behind the last try, the error handler.
pub mod Delay
use tidal_syncer.Shared.{
  ℕ, ◌-◌, ◌*◌, ◌%◌, ◌^◌, Bool, not, ◌&&◌, ◌||◌, Option, none, some, List, [], ◌∷◌, ◌++◌, Text,
  codes, text_eq, nat_eq, ◌==◌, ltb, leb, if◌then◌else◌,
}
use tidal_syncer.Shared.Map.{Map, lookup, insert}
use tidal_syncer.Shared.Int.{ℤ, pos, negsuc, lt_ℤ}
use tidal_syncer.Strconv.{atoi}
use tidal_syncer.Failure.{
  Error, canceled, deadline_exceeded, api_error, track_unavailable, plain, is, as_api_error, Result,
  ok, err, ◌>>=◌,
}

-- A response, with its `Retry-After` header, or nothing.
pub record Response : Type 0 where
  pub status : ℕ
  pub retry_after : Text
  pub body : Text

-- What the library answers: a response, an error of its own, or what the error handler gets behind the
-- last try.
pub data Exchange : Type 0 where
  answered : Response → Exchange
  failed : Error → Exchange
  gave_up : Option Response → Error → Exchange

abbrev pub new_api_error : Response → Error
new_api_error r = api_error r.status ∷ []

-- `errorHandler`
unfoldable pub error_handler : Option Response → Error → Error
error_handler none e = e
error_handler (some r) e = if is e canceled || is e deadline_exceeded then e else new_api_error r

-- An API error in an error of the library is returned as it is.
abbrev api_error_of : Error → Option ℕ → Error
api_error_of e none = e
api_error_of e (some status) = api_error status ∷ []

unfoldable pub settled : Exchange → Result Response
unfolding error_handler as_api_error
settled (failed e) = err (api_error_of e (as_api_error e))
settled (gave_up resp e) = let x = error_handler resp e in err (api_error_of x (as_api_error x))
settled (answered r) = if ltb r.status 200 || leb 300 r.status then err (new_api_error r) else ok r

-- The credentials of a token source.
pub record Credentials : Type 0 where
  pub access : Text
  pub country_code : Text
  pub user_id : Text

-- `url.Values`
abbrev pub Values : Type 0
Values = Map Text (List Text)

abbrev or_nil : Option (List Text) → List Text
or_nil none = []
or_nil (some vs) = vs

unfoldable pub add_all : Text → List Text → Values → Values
add_all k [] m = m
add_all k (v ∷ vs) m = add_all k vs (insert k (or_nil (lookup k m) ++ v ∷ []) m)

unfoldable pub merged : Values → Values → Values
unfolding add_all
merged [] m = m
merged ((k, vs) ∷ query) m = merged query (add_all k vs m)

-- `strings.TrimLeft(s, "/")`
unfoldable pub trim_left : Text → Text
trim_left [] = []
trim_left (c ∷ s) = let rest = trim_left s in if c == b'/' then rest else c ∷ s

abbrev onto : ℕ → Text → Text
onto c [] = if c == b'/' then [] else c ∷ []
onto c (d ∷ s) = c ∷ d ∷ s

unfoldable pub trim_right : Text → Text
trim_right [] = []
trim_right (c ∷ s) = onto c (trim_right s)

-- A parsed URL: its path and its query, of what is read and set here.
pub record Url : Type 0 where
  pub path : Text
  pub query : Values

pub record ApiRequest : Type 0 where
  pub base : Result Url
  pub path : Text
  pub query : Values

unfoldable pub resolve : ApiRequest → Text → Result Url
unfolding trim_left trim_right merged
resolve r country_code = do
  base ← r.base
  ok (record {
    path = trim_right base.path ++ b'/' ∷ trim_left r.path;
    query = insert (codes "countryCode") (country_code ∷ []) (merged r.query base.query);
  })

-- `Client.do`: the token, the wait for the limiter, the request, and its answer.
unfoldable pub do_request :
    Result Credentials → Result (Unit {0}) → (Text → Url → Exchange) → ApiRequest → Result Response
unfolding resolve settled
do_request token wait exchange r = do
  credentials ← token
  u ← wait
  endpoint ← resolve r credentials.country_code
  settled (exchange credentials.access endpoint)

-- `asUnavailable`, for the errors of a track.
abbrev unavailable : Error → Option ℕ → Error
unavailable e none = e
unavailable e (some status) =
    if status == 404 || status == 401 then track_unavailable ∷ api_error status ∷ [] else e

unfoldable pub as_unavailable : Error → Error
unfolding as_api_error
as_unavailable e = unavailable e (as_api_error e)

-- `includedResource`
pub record IncludedResource : Type 0 where
  pub type : Text
  pub genre_name : Text

unfoldable pub genre_names : List IncludedResource → List Text
genre_names [] = []
genre_names (r ∷ rs) =
    let rest = genre_names rs in
    if not (r.type == codes "genres") || r.genre_name == [] then rest else r.genre_name ∷ rest

-- `time.Duration(secs) * time.Second`, an int64.
abbrev pub second : ℕ
second = 1000000000

abbrev pub signed : ℕ → ℤ
signed n = if ltb n (2 ^ 63) then pos n else negsuc (2 ^ 64 - n - 1)

abbrev pub seconds : ℕ → ℤ
seconds n = signed (n * second % 2 ^ 64)

abbrev pub min_ℤ : ℤ → ℤ → ℤ
min_ℤ a b = if lt_ℤ b a then b else a

-- A number of seconds, or, where the header is none, the time until its date if it is one to come.
abbrev delay_of : Result ℕ → Option ℤ → Option ℤ
delay_of (ok n) until = if leb (2 ^ 63) n then none else some (seconds n)
delay_of (err e) none = none
delay_of (err e) (some d) = if lt_ℤ (pos 0) d then some d else none

-- `retryAfter`; `until` is the time until the date that the header is parsed as.
unfoldable pub retry_after : (Text → Option ℤ) → Option Response → Option ℤ
unfolding atoi
retry_after until none = none
retry_after until (some r) =
    if not (r.status == 429) || r.retry_after == []
    then none
    else delay_of (atoi r.retry_after) (until r.retry_after)

-- `Backoff`; `default` is what the library's own policy gives.
unfoldable pub backoff : (Text → Option ℤ) → ℤ → ℤ → Option Response → ℤ
unfolding retry_after
backoff until default wait_max resp = elim (retry_after until resp) [
  | none ↦ default
  | some delay ↦ min_ℤ delay wait_max
]
