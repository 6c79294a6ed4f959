-- ===== src/Download/Stream/Laws.antt =====
-- What a stream is made of.
use mathlib.Core.List.{append-nil, append_assoc}
use tidal_syncer.Shared.{
  ℕ, zero, suc, ◌+◌, ◌<◌, ◌≤◌, Bool-cases, ◌⊎◌, inl, inr, Option, none, some, List, [], ◌∷◌, ◌++◌,
  Text, leb, leb→le, nat_eq, ◌==◌, arith, ◌≡◌, refl, ◌∙◌, sym, ap,
}
use tidal_syncer.Failure.{Error, unexpected_status, Result, ok, err, >>=-eq-ok}
use tidal_syncer.Download.Stream.{
  Response, Http, get_segment, try_stream, next_attempt, retry, written, fetch_segment,
  assemble_segments, get_stream, accept_200, copied, stream_url, stream_urls,
}

next_attempt-eq-ok :
    {A : Type 0} (c : Option Error) (r : Result A) (rest : Error → Result A) (a : A)
    → next_attempt c r rest ≡ ok a
    → (r ≡ ok a) ⊎ ((e : Error) × (rest e ≡ ok a))
unfolding next_attempt
next_attempt-eq-ok (some e) r rest a h = absurd (ground (arith, h))
next_attempt-eq-ok none (ok x) rest a h = inl h
next_attempt-eq-ok none (err e) rest a h = inr (e, h)

-- What a retried call returns is the answer of one of its attempts.
retry-eq-ok :
    {A : Type 0} (context : ℕ → Option Error) (answer : ℕ → Result A) (left k : ℕ) (last : Error)
    (a : A)
    → retry context answer left k last ≡ ok a
    → (j : ℕ) × (k ≤ j) × (j < k + left) × (answer j ≡ ok a)
unfolding retry
retry-eq-ok context answer zero k last a h = absurd (ground (arith, h))
retry-eq-ok context answer (suc left) k last a h =
    elim (next_attempt-eq-ok (context k) (answer k) (retry context answer left (suc k)) a h) [
      | inl e ↦ (k, omega arith, omega arith, e)
      | inr later ↦
          let (e, r) = later in
          let (j, l, u, found) = retry-eq-ok context answer left (suc k) e a r in
          (j, omega (arith, l), omega (arith, u), found)
    ]

written-eq-ok :
    (http : Http) (o : Option Error) (bytes dst out : Text)
    → written http o bytes dst ≡ ok out
    → out ≡ dst ++ bytes
unfolding written
written-eq-ok http none bytes dst out h = ground (arith, h)
written-eq-ok http (some e) bytes dst out h = absurd (ground (arith, h))

-- An answer with status 200, and its body.
pub record IsWholeBody (answer : Result Response) (body : Text) : Type 0 where
  pub response : Response
  pub answered : answer ≡ ok response
  pub status : response.status ≡ 200
  pub read : response.body ≡ ok body

accept_200-eq-ok : (r got : Response) → accept_200 r ≡ ok got → (got ≡ r) × (r.status ≡ 200)
unfolding accept_200 nat_eq
accept_200-eq-ok r got h = elim (Bool-cases (r.status == 200)) [
  | inl same ↦ let e : ok r ≡ ok got = rw same at h in (ground (arith, e), ground (arith, same))
  | inr other ↦
      let e : err (unexpected_status ∷ []) ≡ ok got = rw other at h in absurd (ground (arith, e))
]

try_stream-eq-ok :
    (answer : Result Response) (got : Response)
    → try_stream answer ≡ ok got
    → (answer ≡ ok got) × (got.status ≡ 200)
unfolding try_stream
try_stream-eq-ok (err e) got h = absurd (ground (arith, h))
try_stream-eq-ok (ok r) got h =
    let (same, status) = accept_200-eq-ok r got h in
    (ap ok (sym same), ap (λ (x : Response). x.status) same ∙ status)

try_stream-200 :
    (answer : Result Response) (r : Response)
    → answer ≡ ok r
    → r.status ≡ 200
    → try_stream answer ≡ ok r
unfolding try_stream accept_200 nat_eq
try_stream-200 answer r h s = rw (h, s) refl

get_segment-IsWholeBody :
    (answer : Result Response) (body : Text)
    → get_segment answer ≡ ok body
    → IsWholeBody answer body
unfolding get_segment
get_segment-IsWholeBody answer body h =
    let (r, got, b) = >>=-eq-ok (try_stream answer) _ h in
    let (answered, status) = try_stream-eq-ok answer r got in
    record { response = r; answered = answered; status = status; read = b }

-- The bodies that answered the URLs, in their order, each at one of the allowed attempts.
abbrev pub AreBodies : Http → List Text → List Text → Type 0
AreBodies http [] [] = Unit
AreBodies http [] (b ∷ bs) = ⊥
AreBodies http (url ∷ urls) [] = ⊥
AreBodies http (url ∷ urls) (b ∷ bs) =
    ((k : ℕ) × (k < 3) × IsWholeBody (http.attempt url k) b) × AreBodies http urls bs

abbrev pub concat : List Text → Text
concat [] = []
concat (b ∷ bs) = b ++ concat bs

fetch_segment-eq-ok :
    (http : Http) (url dst out : Text)
    → fetch_segment http url dst ≡ ok out
    → (body : Text) × (out ≡ dst ++ body)
      × (k : ℕ) × (k < 3)
      × IsWholeBody (http.attempt url k) body
unfolding fetch_segment
fetch_segment-eq-ok http url dst out h =
    let (body, r, w) = >>=-eq-ok _ _ h in
    let (k, l, u, answer) =
      retry-eq-ok (http.context url) (λ (i : ℕ). get_segment (http.attempt url i)) 3 0 [] body r in
    (
      body,
      written-eq-ok http (http.write dst body) body dst out w,
      k,
      omega (arith, u),
      get_segment-IsWholeBody _ body answer,
    )

-- When the segments of a stream are assembled, what was there is followed by exactly one body for each
-- URL, whole and in the order of the URLs, each the body of a response with status 200 to one of at most
-- three attempts: a retry neither repeats nor cuts a segment.
pub assemble_segments-AreBodies :
    (http : Http) (urls : List Text) (dst out : Text)
    → assemble_segments http urls dst ≡ ok out
    → (bodies : List Text) × (out ≡ dst ++ concat bodies) × AreBodies http urls bodies
unfolding assemble_segments
assemble_segments-AreBodies http [] dst out h = ([], ground (arith, h, append-nil dst), tt)
assemble_segments-AreBodies http (url ∷ urls) dst out h =
    let (next, first, rest) = >>=-eq-ok _ _ h in
    let (body, grown, k, l, answer) = fetch_segment-eq-ok http url dst next first in
    let (bodies, all, others) = assemble_segments-AreBodies http urls next out rest in
    (
      body ∷ bodies,
      all ∙ rw grown (append_assoc dst body (concat bodies)),
      ((k, l, answer), others),
    )

Result-cases : {A : Type 0} (r : Result A) → ((a : A) × (r ≡ ok a)) ⊎ ((e : Error) × (r ≡ err e))
Result-cases (ok a) = inl (a, refl)
Result-cases (err e) = inr (e, refl)

next_one :
    {A : Type 0} (answer : ℕ → Result A) (k j : ℕ)
    → k ≤ j
    → (a : A) (x : Error) → answer j ≡ ok a
    → answer k ≡ err x
    → suc k ≤ j
next_one answer k j l a x h e = elim (Bool-cases (leb j k)) [
  | inl le ↦
      let same : j ≡ k = omega (arith, l, leb→le j k le) in
      absurd (ground (arith, sym h ∙ ap answer same ∙ e))
  | inr gt ↦ ground (arith, gt)
]

retry-finds :
    {A : Type 0} (context : ℕ → Option Error) (answer : ℕ → Result A) (left k j : ℕ) (last : Error)
    (a : A)
    → ((i : ℕ) → context i ≡ none)
    → k ≤ j
    → j < k + left
    → answer j ≡ ok a
    → (got : A) × (retry context answer left k last ≡ ok got)
unfolding retry next_attempt
retry-finds context answer zero k j last a c l u h = absurd (omega (arith, l, u))
retry-finds context answer (suc left) k j last a c l u h = elim (Result-cases (answer k)) [
  | inl (got, e) ↦ (got, rw (c k, e) refl)
  | inr (x, e) ↦
      let later : suc k ≤ j = next_one answer k j l a x h e in
      let (got, found) =
        retry-finds context answer left (suc k) j x a c later (omega (arith, u)) h in
      (got, rw (c k, e) found)
]

-- While the context lasts, a stream whose URL answers with status 200 at one of its first three attempts
-- is got: the answer of one of these attempts, with status 200.
pub get_stream-finds :
    (http : Http) (url : Text) (k : ℕ) (r : Response)
    → k < 3
    → ((j : ℕ) → http.context url j ≡ none)
    → http.attempt url k ≡ ok r
    → r.status ≡ 200
    → (got : Response) × (get_stream http url ≡ ok got)
      × (got.status ≡ 200)
      × (j : ℕ) × (j < 3)
      × (http.attempt url j ≡ ok got)
unfolding get_stream
get_stream-finds http url k r l c h s =
    let answer : ℕ → Result Response = λ i. try_stream (http.attempt url i) in
    let (got, found) =
      retry-finds (http.context url) answer 3 0 k [] r c (omega arith) (omega (arith, l))
        (try_stream-200 (http.attempt url k) r h s) in
    let (j, lo, hi, at) = retry-eq-ok (http.context url) answer 3 0 [] got found in
    let (answered, status) = try_stream-eq-ok (http.attempt url j) got at in
    (got, found, status, j, omega (arith, hi), answered)

copied-eq-ok :
    (http : Http) (c : Option Error) (r : Result Text) (dst out : Text)
    → copied http c r dst ≡ ok out
    → (body : Text) × (out ≡ dst ++ body) × (r ≡ ok body)
unfolding copied
copied-eq-ok http c (ok bytes) dst out h =
    (bytes, written-eq-ok http (http.write dst bytes) bytes dst out h, refl)
copied-eq-ok http (some x) (err e) dst out h = absurd (ground (arith, h))
copied-eq-ok http none (err e) dst out h = absurd (ground (arith, h))

stream_url-eq-ok :
    (http : Http) (url dst out : Text)
    → stream_url http url dst ≡ ok out
    → (body : Text) × (out ≡ dst ++ body)
      × (k : ℕ) × (k < 3)
      × IsWholeBody (http.attempt url k) body
unfolding stream_url get_stream
stream_url-eq-ok http url dst out h =
    let (r, got, c) = >>=-eq-ok (get_stream http url) _ h in
    let (body, grown, read) = copied-eq-ok http (http.context_after url) r.body dst out c in
    let (k, l, u, at) =
      retry-eq-ok (http.context url) (λ (i : ℕ). try_stream (http.attempt url i)) 3 0 [] r got in
    let (answered, status) = try_stream-eq-ok (http.attempt url k) r at in
    (
      body,
      grown,
      k,
      omega (arith, u),
      record { response = r; answered = answered; status = status; read = read },
    )

-- The same of the URLs of a playback that is no DASH document.
pub stream_urls-AreBodies :
    (http : Http) (urls : List Text) (dst out : Text)
    → stream_urls http urls dst ≡ ok out
    → (bodies : List Text) × (out ≡ dst ++ concat bodies) × AreBodies http urls bodies
unfolding stream_urls
stream_urls-AreBodies http [] dst out h = ([], ground (arith, h, append-nil dst), tt)
stream_urls-AreBodies http (url ∷ urls) dst out h =
    let (next, first, rest) = >>=-eq-ok (stream_url http url dst) _ h in
    let (body, grown, k, l, answer) = stream_url-eq-ok http url dst next first in
    let (bodies, all, others) = stream_urls-AreBodies http urls next out rest in
    (
      body ∷ bodies,
      all ∙ rw grown (append_assoc dst body (concat bodies)),
      ((k, l, answer), others),
    )
