-- ===== src/Config/Validate/Sound.antt =====
-- A configuration that passes `Validate` is valid.
use tidal_syncer.Shared.{
  ℕ, ◌⊎◌, inl, inr, Bool-cases, ◌≤◌, ◌≡◌, ◌≢◌, Bool, true, false, Option, none, some, List, [], ◌∷◌,
  Text, text_eq, nat_eq, ◌==◌, if◌then◌else◌, ltb, All, refl, arith, not,
}
use tidal_syncer.Shared.Int.{ℤ, pos, lt_ℤ}
use tidal_syncer.Tidal.Quality.{Quality, lossless, rank}
use tidal_syncer.Config.Types.{
  Config, DurationRange, DaemonTimeWindow, delay_range, minute, mode_polling, mode_time_window,
  polling_range,
}
use tidal_syncer.Config.TemplateCheck.{TemplateError}
use tidal_syncer.Config.Validate.{
  Field, Invalid, first_error, checks, window_checks, window_start, window_end, time_window,
  daemon_polling, quality_floor, client_id, client_secret, reject, require_non_empty,
  validate_concurrency, validate_duration_range, validate_clock, validate_time_window,
  require_lossless, template_invalid, validate, AtLeast, IsClock, IsValid, require_one_of,
  removal_policy, daemon_mode, jitter_worker, log_format, metrics_address,
}

first_error-none :
    (checks : List (Option Invalid)) → first_error checks ≡ none → All (λ c. c ≡ none) checks
first_error-none [] h = tt
first_error-none (none ∷ checks) h = (refl, first_error-none checks h)
first_error-none (some e ∷ checks) h = cc

reject-none : (b : Bool) (e : Invalid) → reject b e ≡ none → b ≡ false
reject-none true e h = cc
reject-none false e h = cc

validate_duration_range-AtLeast :
    (f : Field) (rng : DurationRange) (floor : ℕ)
    → validate_duration_range f rng floor ≡ none
    → AtLeast floor rng
unfolding validate_duration_range
validate_duration_range-AtLeast f rng floor h = ground arith

require_lossless-rank :
    (f : Field) (q : Quality) → require_lossless f q ≡ none → rank lossless ≤ rank q
unfolding require_lossless rank
require_lossless-rank f q h = ground arith

validate_clock-IsClock : (f : Field) (s : Text) → validate_clock f s ≡ none → IsClock s
unfolding validate_clock nat_eq
validate_clock-IsClock f s h =
    (ground (arith, h), ground (arith, h), λ e. absurd (ground (arith, h, e)))

require_one_of-two :
    (f : Field) (s a b : Text) → require_one_of f s (a ∷ b ∷ []) ≡ none → (s ≡ a) ⊎ (s ≡ b)
unfolding require_one_of
require_one_of-two f s a b h = elim (Bool-cases (s == a)) [
  | inl same ↦ inl (ground (arith, same))
  | inr other ↦ inr (ground (arith, other, h))
]

require_one_of-three :
    (f : Field) (s a b c : Text)
    → require_one_of f s (a ∷ b ∷ c ∷ []) ≡ none
    → (s ≡ a) ⊎ ((s ≡ b) ⊎ (s ≡ c))
unfolding require_one_of
require_one_of-three f s a b c h = elim (Bool-cases (s == a)) [
  | inl same ↦ inl (ground (arith, same))
  | inr other ↦ elim (Bool-cases (s == b)) [
    | inl same ↦ inr (inl (ground (arith, same)))
    | inr neither ↦ inr (inr (ground (arith, other, neither, h)))
  ]
]

when_enabled :
    (enabled ok_address : Bool) (e : Invalid)
    → (if enabled then reject (not ok_address) e else none) ≡ none
    → (enabled ≡ false) ⊎ (ok_address ≡ true)
when_enabled false ok_address e h = inl refl
when_enabled true true e h = inr refl
when_enabled true false e h = absurd (ground (arith, h))

validate_time_window_lem :
    (w : DaemonTimeWindow)
    → validate_time_window w ≡ none
    → (w.start ≢ w.end) × IsClock w.start × IsClock w.end × AtLeast minute (delay_range w)
unfolding validate_time_window
validate_time_window_lem w h =
    let (start, (end, (differ, (range, _)))) = first_error-none (window_checks w) h in
    (
      λ e. ground (arith, e),
      validate_clock-IsClock window_start w.start start,
      validate_clock-IsClock window_end w.end end,
      validate_duration_range-AtLeast time_window (delay_range w) minute range,
    )

require_non_empty-ne-nil : (f : Field) (s : Text) → require_non_empty f s ≡ none → s ≢ []
unfolding require_non_empty
require_non_empty-ne-nil f s h e = ground (arith, e)

validate_concurrency_lem :
    (n : ℤ) → validate_concurrency n ≡ none → (lt_ℤ n (pos 1) ≡ false) × (lt_ℤ (pos 8) n ≡ false)
unfolding validate_concurrency
validate_concurrency_lem n h = ground arith

template_invalid-none : (o : Option TemplateError) → template_invalid o ≡ none → o ≡ none
template_invalid-none none h = refl
template_invalid-none (some e) h = cc

below_not : (a b : ℕ) (e : Invalid) → reject (ltb a b) e ≡ none → b ≤ a
below_not a b e h = ground arith

when_equal :
    (s t : Text) (check : Option Invalid)
    → (if s == t then check else none) ≡ none
    → s ≡ t
    → check ≡ none
when_equal s t check h e = ground (arith, e)

in_mode : (m n : Text) (P : Type 0) → (m ≡ n → P) → (m ≢ n) ⊎ P
in_mode m n P p = elim (Bool-cases (m == n)) [
  | inl e ↦ inr (p (ground (arith, e)))
  | inr e ↦ inl (λ same. absurd (ground (arith, e, same)))
]

-- A configuration that validation accepts has a known removal policy, daemon mode and log format; between
-- 1 and 8 workers; a lossless quality floor that does not exceed the requested tier; for the mode it
-- names, delays of at least a minute with the minimum not above the maximum, and two different clock
-- texts HH:MM that parse; a range of delays of the workers that is not negative and not empty; a path
-- template that parses and has its required placeholders; client credentials that are not empty; and, if
-- metrics are enabled, an address with host and port.
pub validate-IsValid :
    (split_host_port : Text → Bool) (c : Config)
    → validate split_host_port c ≡ none
    → IsValid split_host_port c
unfolding validate
validate-IsValid split_host_port c h =
    let (policy, (mode, (workers, (polling, (window, (jitter, (floor, (request, rest)))))))) =
      first_error-none (checks split_host_port c) h in
    let (quality_band, (format, (template, (id, (secret, metrics))))) = rest in
    record {
      policy = require_one_of-three removal_policy c.removal_policy _ _ _ policy;
      mode = require_one_of-two daemon_mode c.daemon.mode _ _ mode;
      workers = validate_concurrency_lem c.concurrency workers;
      band =
          (require_lossless-rank quality_floor c.quality.floor floor, below_not _ _ _ quality_band);
      polling = in_mode c.daemon.mode mode_polling _ λ e.
          validate_duration_range-AtLeast daemon_polling (polling_range c.daemon) minute
            (when_equal _ _ _ polling e);
      window =
          in_mode c.daemon.mode mode_time_window _
            λ e. validate_time_window_lem c.daemon.time_window (when_equal _ _ _ window e);
      jitter = validate_duration_range-AtLeast jitter_worker c.worker_jitter 0 jitter;
      format = require_one_of-two log_format c.log.format _ _ format;
      template = template_invalid-none _ template;
      credentials = (
        require_non_empty-ne-nil client_id _ id,
        require_non_empty-ne-nil client_secret _ secret,
      );
      address = when_enabled c.metrics.enabled _ metrics_address metrics.0;
    }
