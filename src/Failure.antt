-- ===== src/Failure.antt =====
-- Go errors as values: an error is the chain of sentinels that `errors.Is` and `errors.As` find in
-- it, outermost first, so that `fmt.Errorf("...: %w", err)` keeps the chain.
use native.Mathlib.Decide.{ℕ_discrete}
use tidal_syncer.Shared.{ℕ, Bool, Option, none, some, List, [], ◌∷◌, Eq, contains, ◌≡◌, refl}

pub data Mark : Type 0 where
  canceled deadline_exceeded : Mark
  not_found not_exist constraint database : Mark
  below_floor encrypted_skip encrypted unsupported_manifest unexpected_status : Mark
  ffmpeg_failed disk_full no_space invalid_manifest unknown_mime track_unavailable : Mark
  removal_fatal another_sync_running reauth_required dead_credentials : Mark
  device_code_expired authorization_pending slow_down transient sqlite_busy locked would_block
        truncated :
      Mark
  empty_template bad_migration_name invalid_config unknown_daemon_mode : Mark
  api_error : ℕ → Mark
  plain : Mark

pub Mark-discrete : Discrete Mark
Mark-discrete = hlevel ℕ_discrete

instance unfoldable pub mark_eq : Eq Mark
unfolding Mark-discrete ℕ_discrete
mark_eq = record { dec = Mark-discrete }

abbrev pub Error : Type 0
Error = List Mark

-- `errors.Is(err, target)`
unfoldable pub is : Error → Mark → Bool
is e m = contains e m

-- `errors.As(err, &apiErr)`, with the status of the API error that it finds.
unfoldable pub as_api_error : Error → Option ℕ
as_api_error [] = none
as_api_error (api_error status ∷ e) = some status
as_api_error (m ∷ e) = as_api_error e

-- The value and error pair of a call: exactly one of the two is there.
pub data Result {ℓ} (V : Type ℓ) : Type ℓ where
  err : Error → Result V
  ok : V → Result V

-- `if err != nil { return err }` behind a call, whose value goes on to what follows.
infixl 5 ◌>>=◌
abbrev pub ◌>>=◌ {κ ℓ} : {V : Type κ} {W : Type ℓ} → Result V → (V → Result W) → Result W
err failure >>= next = err failure
ok value >>= next = next value

-- The same behind a call that has no value.
infixl 5 ◌>>◌
abbrev pub ◌>>◌ {ℓ} : {W : Type ℓ} → Result (Unit {0}) → Result W → Result W
err failure >> next = err failure
ok u >> next = next

-- A chain that succeeds has a first call that does, with a value from which the rest succeeds.
pub >>=-eq-ok {κ ℓ} :
    {V : Type κ} {W : Type ℓ} (call : Result V) (next : V → Result W) {w : W}
    → (call >>= next) ≡ ok w
    → (v : V) × (call ≡ ok v) × (next v ≡ ok w)
>>=-eq-ok (err failure) next h = cc
>>=-eq-ok (ok value) next h = (value, refl, h)
