-- ===== src/Auth/Refresh.antt =====
-- What a refresh keeps and what it renews.
use tidal_syncer.Shared.{
  ℕ, ◌+◌, ◌*◌, ◌<◌, ◌≤◌, ◌≢◌, nat_eq, ◌==◌, [], ◌∷◌, Text, true, false, Bool-cases, ◌⊎◌, inl, inr,
  Option, none, some, text_eq, arith, ◌≡◌, refl,
}
use tidal_syncer.Shared.Decimal.{itoa}
use tidal_syncer.Failure.{Error, Result, ok, err}
use tidal_syncer.Auth.{
  Token, TokenResponse, AuthPorts, TokenRow, load_token, found_token, save_token, merge_refreshed,
  expiry_from_now, format_user_id, if_given, needs_refresh, saved, exchanged, refresh_loaded,
  do_refresh, token_loaded, token,
}

-- A given value replaces an old one.
abbrev pub Replaces : Text → Text → Text → Type 0
Replaces given old new = ((given ≢ []) × (new ≡ given)) ⊎ ((given ≡ []) × (new ≡ old))

-- The stored seconds are those of the instant at which a token issued at `now` ends, rounded down.
abbrev pub EndsAt : ℕ → ℕ → ℕ → Type 0
EndsAt now expires_in seconds =
    (seconds * 1000000000 ≤ now + expires_in * 1000000000)
    × (now + expires_in * 1000000000 < (seconds + 1) * 1000000000)

-- A refresh: the new access token and expiry, and else what the endpoint gave, or what was there.
pub record IsRefreshed (old : Token) (tr : TokenResponse) (now : ℕ) (tok : Token) : Type 0 where
  pub access : tok.access_token ≡ tr.access_token
  pub refresh : Replaces tr.refresh_token old.refresh_token tok.refresh_token
  pub ends : EndsAt now tr.expires_in tok.expires_at
  pub user :
      ((tr.user_id ≢ 0) × (tok.user_id ≡ itoa tr.user_id))
      ⊎ ((tr.user_id ≡ 0) × (tok.user_id ≡ old.user_id))
  pub country : Replaces tr.country_code old.country_code tok.country_code
  pub session : Replaces tr.session_id old.session_id tok.session_id

if_given-Replaces : (given old : Text) → Replaces given old (if_given given old)
if_given-Replaces [] old = inr (refl, refl)
if_given-Replaces (c ∷ given) old = inl (λ e. cc, refl)

pub expiry_from_now-EndsAt :
    (now expires_in : ℕ) → EndsAt now expires_in (expiry_from_now now expires_in)
unfolding expiry_from_now
expiry_from_now-EndsAt now expires_in = ground arith

merge_refreshed-IsRefreshed :
    (old : Token) (tr : TokenResponse) (now : ℕ)
    → IsRefreshed old tr now (merge_refreshed old tr now)
unfolding merge_refreshed format_user_id nat_eq
merge_refreshed-IsRefreshed old tr now = record {
  access = refl;
  refresh = if_given-Replaces tr.refresh_token old.refresh_token;
  ends = expiry_from_now-EndsAt now tr.expires_in;
  user = elim (Bool-cases (tr.user_id == 0)) [
    | inl zero_id ↦ inr (ground (arith, zero_id), rw zero_id refl)
    | inr given ↦ inl (λ e. absurd (ground (arith, given, e)), rw given refl)
  ];
  country = if_given-Replaces tr.country_code old.country_code;
  session = if_given-Replaces tr.session_id old.session_id;
}

-- An hour, in nanoseconds.
abbrev pub hour : ℕ
hour = 3600000000000

needs_refresh-true :
    (now : ℕ) (tok : Token)
    → needs_refresh now tok ≡ true
    → tok.expires_at * 1000000000 ≤ now + hour
unfolding needs_refresh
needs_refresh-true now tok h = ground (arith, h)

needs_refresh-false :
    (now : ℕ) (tok : Token)
    → needs_refresh now tok ≡ false
    → now + hour < tok.expires_at * 1000000000
unfolding needs_refresh
needs_refresh-false now tok h = ground (arith, h)

module _ (ports : AuthPorts) where
  -- What `Token` hands out stands in the store; if it was there before, it is not close to its expiry,
  -- and otherwise it is the merge of the token before with the endpoint's answer to its refresh token.
  pub data IsHandedOut (before : TokenRow) (tok : Token) (row : TokenRow) : Type 0 where
    kept :
        before ≡ some tok
        → row ≡ before
        → ports.now + hour < tok.expires_at * 1000000000
        → IsHandedOut before tok row
    renewed :
        (old : Token) (tr : TokenResponse)
        → before ≡ some old
        → old.expires_at * 1000000000 ≤ ports.now + hour
        → ports.exchange old.refresh_token ≡ ok tr
        → IsRefreshed old tr ports.now tok
        → row ≡ some tok
        → IsHandedOut before tok row

  -- A token that was handed out, or an error that left the store as it was.
  abbrev pub IsAnswer : TokenRow → Result Token × TokenRow → Type 0
  IsAnswer before (ok tok, row) = IsHandedOut before tok row
  IsAnswer before (err e, row) = row ≡ before

  saved-IsAnswer :
      (row : TokenRow) (old : Token) (tr : TokenResponse) (f : Option Error)
      → row ≡ some old
      → needs_refresh ports.now old ≡ true
      → ports.exchange old.refresh_token ≡ ok tr
      → IsAnswer row (
          saved ports
            (merge_refreshed old tr ports.now)
            (save_token f (merge_refreshed old tr ports.now) row))
  unfolding saved save_token
  saved-IsAnswer row old tr none a b c =
      renewed old tr a (needs_refresh-true ports.now old b) c
        (merge_refreshed-IsRefreshed old tr ports.now) refl
  saved-IsAnswer row old tr (some e) a b c = refl

  exchanged-IsAnswer :
      (row : TokenRow) (old : Token) (r : Result TokenResponse)
      → row ≡ some old
      → needs_refresh ports.now old ≡ true
      → ports.exchange old.refresh_token ≡ r
      → IsAnswer row (exchanged ports old r row)
  unfolding exchanged
  exchanged-IsAnswer row old (err e) a b c = refl
  exchanged-IsAnswer row old (ok tr) a b c = saved-IsAnswer row old tr ports.save_fault a b c

  load_token-cases :
      (f : Option Error) (row : TokenRow)
      → ((e : Error) × (load_token f row ≡ err e))
        ⊎ ((old : Token) × (row ≡ some old) × (load_token f row ≡ ok old))
  unfolding load_token found_token
  load_token-cases none none = inl (_, refl)
  load_token-cases none (some t) = inr (t, refl, refl)
  load_token-cases (some e) row = inl (e, refl)

  do_refresh-IsAnswer :
      (row : TokenRow) (old : Token)
      → row ≡ some old
      → load_token ports.load_fault row ≡ ok old
      → needs_refresh ports.now old ≡ true
      → IsAnswer row (do_refresh ports row)
  unfolding do_refresh refresh_loaded
  do_refresh-IsAnswer row old a l b = rw l (exchanged-IsAnswer row old _ a b refl)

  token_loaded-IsAnswer :
      (row : TokenRow) (old : Token)
      → row ≡ some old
      → load_token ports.load_fault row ≡ ok old
      → IsAnswer row (token_loaded ports (ok old) row)
  unfolding token_loaded
  token_loaded-IsAnswer row old a l = elim (Bool-cases (needs_refresh ports.now old)) [
    | inl b ↦ rw b (do_refresh-IsAnswer row old a l b)
    | inr b ↦ rw b (kept a refl (needs_refresh-false ports.now old b))
  ]

pub token-IsAnswer : (ports : AuthPorts) (row : TokenRow) → IsAnswer ports row (token ports row)
unfolding token token_loaded
token-IsAnswer ports row = elim (load_token-cases ports ports.load_fault row) [
  | inl (e, l) ↦ rw l refl
  | inr (old, a, l) ↦ rw l (token_loaded-IsAnswer ports row old a l)
]

-- A token that the endpoint issues for more than an hour needs no refresh when it is merged.
pub merge_refreshed-needs_no_refresh :
    (old : Token) (tr : TokenResponse) (now : ℕ)
    → 3601 ≤ tr.expires_in
    → needs_refresh now (merge_refreshed old tr now) ≡ false
unfolding merge_refreshed needs_refresh expiry_from_now
merge_refreshed-needs_no_refresh old tr now h = ground (arith, h)
