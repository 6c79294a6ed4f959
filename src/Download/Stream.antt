-- ===== src/Download/Stream.antt =====
-- pkg/tidal/download/download.go and dash.go: the streams of a track, with their bounded retries. A
-- stream is what was written so far; the temporary file that holds it is dropped on any error.
pub mod Laws
use tidal_syncer.Shared.{
  ℕ, zero, suc, Bool, true, false, Option, none, some, List, [], ◌∷◌, ◌++◌, Text, nat_eq, ◌==◌,
  if◌then◌else◌,
}
use tidal_syncer.Failure.{Error, unexpected_status, disk_full, no_space, is, Result, ok, err, ◌>>=◌}

pub record Response : Type 0 where
  pub status : ℕ
  -- Reading the body to its end.
  pub body : Result Text

-- The answers to the attempts at a URL, the context before each, the context behind a copy that failed,
-- and the error of a write of bytes behind those that were written.
pub record Http : Type 0 where
  pub attempt : Text → ℕ → Result Response
  pub context : Text → ℕ → Option Error
  pub context_after : Text → Option Error
  pub write : Text → Text → Option Error

-- `streamAttempts` and `segmentAttempts`
abbrev pub max_attempts : ℕ
max_attempts = 3

unfoldable pub classify_io_err : Error → Error
classify_io_err e = if is e no_space then disk_full ∷ e else e

accept_200 : Response → Result Response
accept_200 r = if r.status == 200 then ok r else err (unexpected_status ∷ [])

-- One attempt of `getStream`, and `getSegment`.
unfoldable pub try_stream : Result Response → Result Response
unfolding accept_200
try_stream (err e) = err e
try_stream (ok r) = accept_200 r

unfoldable pub get_segment : Result Response → Result Text
unfolding try_stream
get_segment answer = do r ← try_stream answer; r.body

-- The loops over the attempts: `left` of them, from the `k`th on, behind the error `last`.
next_attempt : {A : Type 0} → Option Error → Result A → (Error → Result A) → Result A
next_attempt (some e) answer rest = err e
next_attempt none (ok a) rest = ok a
next_attempt none (err e) rest = rest e

unfoldable pub retry : {A : Type 0} → (ℕ → Option Error) → (ℕ → Result A) → ℕ → ℕ → Error → Result A
unfolding next_attempt
retry context answer zero k last = err last
retry context answer (suc left) k last =
    next_attempt (context k) (answer k) (retry context answer left (suc k))

module _ (http : Http) where
  written : Option Error → Text → Text → Result Text
  written none bytes dst = ok (dst ++ bytes)
  written (some e) bytes dst = err (classify_io_err e)

  unfoldable pub fetch_segment : Text → Text → Result Text
  unfolding retry get_segment written classify_io_err
  fetch_segment url dst = do
    body ← retry (http.context url) (λ k. get_segment (http.attempt url k)) max_attempts 0 []
    written (http.write dst body) body dst

  unfoldable pub assemble_segments : List Text → Text → Result Text
  unfolding fetch_segment
  assemble_segments [] dst = ok dst
  assemble_segments (url ∷ urls) dst = do next ← fetch_segment url dst; assemble_segments urls next

  unfoldable pub get_stream : Text → Result Response
  unfolding retry try_stream
  get_stream url = retry (http.context url) (λ k. try_stream (http.attempt url k)) max_attempts 0 []

  copied : Option Error → Result Text → Text → Result Text
  copied c (ok bytes) dst = written (http.write dst bytes) bytes dst
  copied (some c) (err e) dst = err c
  copied none (err e) dst = err (classify_io_err e)

  unfoldable pub stream_url : Text → Text → Result Text
  unfolding get_stream copied written classify_io_err
  stream_url url dst = do resp ← get_stream url; copied (http.context_after url) resp.body dst

  unfoldable pub stream_urls : List Text → Text → Result Text
  unfolding stream_url
  stream_urls [] dst = ok dst
  stream_urls (url ∷ urls) dst = do next ← stream_url url dst; stream_urls urls next
