-- ===== src/Auth/Device/Polls.antt =====
-- The waits and the outcome of a device login.
use tidal_syncer.Shared.{
  ℕ, ◌+◌, ◌≢◌, true, false, nat_eq, ◌==◌, Bool-cases, ◌⊎◌, inl, inr, Option, none, some, List, [],
  ◌∷◌, ltb, arith, ◌≡◌, refl,
}
use tidal_syncer.Failure.{Error, authorization_pending, slow_down, is, Result, ok, err}
use tidal_syncer.Shared.Decimal.{itoa}
use tidal_syncer.Auth.{
  Token, TokenResponse, TokenRow, save_token, token_from_response, format_user_id,
}
use tidal_syncer.Auth.Refresh.{EndsAt, expiry_from_now-EndsAt}
use tidal_syncer.Auth.Device.{Poll, Login, saved_login, waited, answered, poll_token}

-- The poll asks for a wait of the interval, or of five seconds more behind a slow_down.
abbrev pub Asks : ℕ → Poll → ℕ → Type 0
Asks interval p wait =
    (e : Error) × (p.response ≡ err e)
    × (((is e authorization_pending ≡ true) × (wait ≡ interval))
        ⊎ ((is e authorization_pending ≡ false)
            × (is e slow_down ≡ true)
            × (wait ≡ interval + 5000000000)))

-- The waits are those that the polls from the first on ask for, each behind its poll.
abbrev pub IsPaced : ℕ → List Poll → List ℕ → Type 0
IsPaced interval ps [] = Unit
IsPaced interval [] (w ∷ ws) = ⊥
IsPaced interval (p ∷ ps) (w ∷ ws) = Asks interval p w × IsPaced w ps ws

-- A token with the fields of the endpoint's answer.
pub record IsTokenOf (tr : TokenResponse) (stamped : ℕ) (tok : Token) : Type 0 where
  pub access : tok.access_token ≡ tr.access_token
  pub refresh : tok.refresh_token ≡ tr.refresh_token
  pub ends : EndsAt stamped tr.expires_in tok.expires_at
  pub user :
      ((tr.user_id ≢ 0) × (tok.user_id ≡ itoa tr.user_id)) ⊎ ((tr.user_id ≡ 0) × (tok.user_id ≡ []))
  pub country : tok.country_code ≡ tr.country_code
  pub session : tok.session_id ≡ tr.session_id

token_from_response-IsTokenOf :
    (stamped : ℕ) (tr : TokenResponse) → IsTokenOf tr stamped (token_from_response stamped tr)
unfolding token_from_response format_user_id nat_eq
token_from_response-IsTokenOf stamped tr = record {
  access = refl;
  refresh = refl;
  ends = expiry_from_now-EndsAt stamped tr.expires_in;
  user = elim (Bool-cases (tr.user_id == 0)) [
    | inl zero_id ↦ inr (ground (arith, zero_id), rw zero_id refl)
    | inr given ↦ inl (λ e. absurd (ground (arith, given, e)), rw given refl)
  ];
  country = refl;
  session = refl;
}

-- The poll got the token that the store now holds.
abbrev pub IsIssued : TokenRow → Poll → Type 0
IsIssued row p =
    (tr : TokenResponse) × (tok : Token) × (p.response ≡ ok tr)
    × IsTokenOf tr p.stamped tok
    × (row ≡ some tok)

abbrev pub SomeIssued : TokenRow → List Poll → Type 0
SomeIssued row [] = ⊥
SomeIssued row (p ∷ ps) = IsIssued row p ⊎ SomeIssued row ps

-- A login that succeeds has stored the token of a poll; any other leaves the store as it was.
pub record IsLogin (ps : List Poll) (interval : ℕ) (row : TokenRow) (l : Login) : Type 0 where
  pub paced : IsPaced interval ps l.waits
  pub stored :
      ((l.answer ≡ some (ok tt)) × SomeIssued l.row ps)
      ⊎ ((l.answer ≢ some (ok tt)) × (l.row ≡ row))

saved_login-IsLogin :
    (p : Poll) (ps : List Poll) (tr : TokenResponse) (f : Option Error) (interval : ℕ)
    (row : TokenRow)
    → p.response ≡ ok tr
    → IsLogin
        (p ∷ ps)
        interval
        row
        (saved_login (save_token f (token_from_response p.stamped tr) row))
unfolding saved_login save_token
saved_login-IsLogin p ps tr none interval row h = record {
  paced = tt;
  stored = inl (
    refl,
    inl (tr, token_from_response p.stamped tr, h, token_from_response-IsTokenOf p.stamped tr, refl),
  );
}
saved_login-IsLogin p ps tr (some e) interval row h = record {
  paced = tt;
  stored = inr (λ k. cc, refl);
}

waited-IsLogin :
    (p : Poll) (ps : List Poll) (i j : ℕ) (w : Result (Unit {0})) (row : TokenRow) (l : Login)
    → Asks i p j
    → IsLogin ps j row l
    → IsLogin (p ∷ ps) i row (waited j w row l)
unfolding waited
waited-IsLogin p ps i j (ok u) row l h k = record {
  paced = (h, k.paced);
  stored = elim k.stored [ inl (a, b) ↦ inl (a, inr b) | inr a ↦ inr a ];
}
waited-IsLogin p ps i j (err e) row l h k = record { paced = (h, tt); stored = inr (λ x. cc, refl) }

answered-IsLogin :
    (p : Poll) (ps : List Poll) (r : Result TokenResponse) (interval : ℕ) (row : TokenRow)
    (rest : ℕ → Login)
    → p.response ≡ r
    → ((i : ℕ) → IsLogin ps i row (rest i))
    → IsLogin (p ∷ ps) interval row (answered p r interval row rest)
unfolding answered
answered-IsLogin p ps (ok tr) interval row rest h k =
    saved_login-IsLogin p ps tr p.save_fault interval row h
answered-IsLogin p ps (err e) interval row rest h k =
    elim (Bool-cases (is e authorization_pending)) [
      | inl a ↦
          rw a
            (waited-IsLogin p ps interval interval p.wait row _ (e, h, inl (a, refl)) (k interval))
      | inr a ↦ rw a (elim (Bool-cases (is e slow_down)) [
        | inl b ↦ rw b (waited-IsLogin p ps interval _ p.wait row _ (e, h, inr (a, b, refl)) (k _))
        | inr b ↦ rw b (record { paced = tt; stored = inr (λ x. cc, refl) })
      ])
    ]

pub poll_token-IsLogin :
    (expiry : ℕ) (ps : List Poll) (interval : ℕ) (row : TokenRow)
    → IsLogin ps interval row (poll_token expiry ps interval row)
unfolding poll_token
poll_token-IsLogin expiry [] interval row = record { paced = tt; stored = inr (λ x. cc, refl) }
poll_token-IsLogin expiry (p ∷ ps) interval row = elim (Bool-cases (ltb p.now expiry)) [
  | inl b ↦ rw b (
      answered-IsLogin p ps p.response interval row _ refl
        (λ i. poll_token-IsLogin expiry ps i row))
  | inr b ↦ rw b (record { paced = tt; stored = inr (λ x. cc, refl) })
]
