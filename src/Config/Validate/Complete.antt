-- ===== src/Config/Validate/Complete.antt =====
-- A valid configuration passes `Validate`.
use tidal_syncer.Config.Validate.Sound.{validate-IsValid}
use tidal_syncer.Shared.{
  ℕ, ◌⊎◌, inl, inr, Bool-cases, ◌≤◌, ◌≡◌, ◌≢◌, ◌↔◌, Bool, true, false, not, Option, none, some,
  List, [], ◌∷◌, Text, text_eq, nat_eq, ◌==◌, if◌then◌else◌, ltb, All, refl, arith,
}
use tidal_syncer.Shared.Int.{ℤ, pos, lt_ℤ}
use tidal_syncer.Tidal.Quality.{Quality, lossless, rank}
use tidal_syncer.Config.Types.{
  Config, DurationRange, DaemonTimeWindow, delay_range, minute, polling_range,
}
use tidal_syncer.Config.Validate.{
  Field, Invalid, first_error, reject, require_one_of, require_non_empty, validate_concurrency,
  validate_duration_range, validate_clock, validate_time_window, window_checks, window_start,
  window_end, time_window, require_lossless, validate, checks, AtLeast, IsClock, IsValid,
  same_clock, quality_request, quality_floor, floor_above_request, log_format, client_id,
  client_secret, metrics_address, removal_policy, daemon_mode, daemon_polling, jitter_worker,
}

none-first_error :
    (checks : List (Option Invalid)) → All (λ c. c ≡ none) checks → first_error checks ≡ none
none-first_error [] h = refl
none-first_error (none ∷ checks) h = none-first_error checks h.1
none-first_error (some e ∷ checks) h = cc

two : (f : Field) (s a b : Text) → (s ≡ a) ⊎ (s ≡ b) → require_one_of f s (a ∷ b ∷ []) ≡ none
unfolding require_one_of
two f s a b h = ground (arith, h)

three :
    (f : Field) (s a b c : Text)
    → (s ≡ a) ⊎ ((s ≡ b) ⊎ (s ≡ c))
    → require_one_of f s (a ∷ b ∷ c ∷ []) ≡ none
unfolding require_one_of
three f s a b c h = ground (arith, h)

workers_none :
    (n : ℤ) → (lt_ℤ n (pos 1) ≡ false) × (lt_ℤ (pos 8) n ≡ false) → validate_concurrency n ≡ none
unfolding validate_concurrency
workers_none n h = rw (h.0, h.1) refl

range_none :
    (f : Field) (rng : DurationRange) (floor : ℕ)
    → AtLeast floor rng
    → validate_duration_range f rng floor ≡ none
unfolding validate_duration_range
range_none f rng floor h = ground (arith, h)

clock_none : (f : Field) (s : Text) → IsClock s → validate_clock f s ≡ none
unfolding validate_clock nat_eq
clock_none f s h = ground (arith, h)

lossless_none : (f : Field) (q : Quality) → rank lossless ≤ rank q → require_lossless f q ≡ none
unfolding require_lossless rank
lossless_none f q h = ground (arith, h)

non_empty_none : (f : Field) (s : Text) → s ≢ [] → require_non_empty f s ≡ none
unfolding require_non_empty
non_empty_none f s h = ground (arith, h)

when_mode :
    (m n : Text) (check : Option Invalid) (P : Type 0)
    → (P → check ≡ none)
    → (m ≢ n) ⊎ P
    → (if m == n then check else none) ≡ none
when_mode m n check P c (inl ne) = elim (Bool-cases (m == n)) [
  | inl same ↦ absurd (ne (ground (arith, same)))
  | inr apart ↦ rw apart refl
]
when_mode m n check P c (inr p) = elim (Bool-cases (m == n)) [
  | inl same ↦ rw same (c p)
  | inr apart ↦ rw apart refl
]

window_none :
    (w : DaemonTimeWindow)
    → (w.start ≢ w.end) × IsClock w.start × IsClock w.end × AtLeast minute (delay_range w)
    → validate_time_window w ≡ none
unfolding validate_time_window
window_none w (differ, start, end, range) = none-first_error (window_checks w) (
  clock_none window_start w.start start,
  (
    clock_none window_end w.end end,
    (same_none, (range_none time_window (delay_range w) minute range, tt)),
  ),
)
  where
    same_none : reject (w.start == w.end) same_clock ≡ none
    same_none = ground (arith, differ)

band_none : (a b : ℕ) (e : Invalid) → b ≤ a → reject (ltb a b) e ≡ none
band_none a b e h = ground (arith, h)

address_none :
    (enabled accepted : Bool) (e : Invalid)
    → (enabled ≡ false) ⊎ (accepted ≡ true)
    → (if enabled then reject (not accepted) e else none) ≡ none
address_none enabled accepted e (inl off) = rw off refl
address_none true accepted e (inr fine) = rw fine refl
address_none false accepted e (inr fine) = refl

IsValid-validate :
    (split_host_port : Text → Bool) (c : Config)
    → IsValid split_host_port c
    → validate split_host_port c ≡ none
unfolding validate
IsValid-validate split_host_port c v = none-first_error (checks split_host_port c) (
  three removal_policy c.removal_policy _ _ _ v.policy,
  (
    two daemon_mode c.daemon.mode _ _ v.mode,
    (
      workers_none c.concurrency v.workers,
      (
        when_mode _ _ _ _ (range_none daemon_polling (polling_range c.daemon) minute) v.polling,
        (
          when_mode _ _ _ _ (window_none c.daemon.time_window) v.window,
          (
            range_none jitter_worker c.worker_jitter 0 v.jitter,
            (
              lossless_none quality_floor c.quality.floor v.band.0,
              (
                lossless_none quality_request c.quality.request (omega (arith, v.band.0, v.band.1)),
                (
                  band_none (rank c.quality.request) (rank c.quality.floor) floor_above_request
                      v.band.1,
                  (
                    two log_format c.log.format _ _ v.format,
                    (
                      rw v.template refl,
                      (
                        non_empty_none client_id _ v.credentials.0,
                        (
                          non_empty_none client_secret _ v.credentials.1,
                          (address_none c.metrics.enabled _ metrics_address v.address, tt),
                        ),
                      ),
                    ),
                  ),
                ),
              ),
            ),
          ),
        ),
      ),
    ),
  ),
)

-- Validation accepts exactly the configurations with a known removal policy, daemon mode and log format;
-- between 1 and 8 workers; a lossless quality floor that does not exceed the requested tier; for the
-- mode they name, delays of at least a minute with the minimum not above the maximum, and two different
-- clock texts HH:MM that parse; a range of delays of the workers that is not negative and not empty; a
-- path template that parses and has its required placeholders; client credentials that are not empty;
-- and, if metrics are enabled, an address with host and port.
pub validate_lem :
    (split_host_port : Text → Bool) (c : Config)
    → (validate split_host_port c ≡ none) ↔ IsValid split_host_port c
validate_lem split_host_port c =
    (validate-IsValid split_host_port c, IsValid-validate split_host_port c)
