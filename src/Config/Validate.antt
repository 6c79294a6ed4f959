-- ===== src/Config/Validate.antt =====
-- internal/config/validate.go: `Validate`, which reports the first field outside its domain.
-- `net.SplitHostPort` is the parameter `split_host_port`, with whether it accepts an address.
pub mod Sound
pub mod Complete
use tidal_syncer.Shared.{
  ℕ, ◌≤◌, ◌<◌, ◌≡◌, ◌≢◌, ◌↔◌, ◌⊎◌, Bool, true, false, ◌&&◌, ◌||◌, not, Option, none, some, List, [],
  ◌∷◌, Text, codes, text_eq, nat_eq, ◌==◌, contains, if◌then◌else◌, ltb, leb, length, get_or, arith,
}
use tidal_syncer.Shared.Int.{ℤ, pos, negsuc, lt_ℤ}
use tidal_syncer.Tidal.Quality.{Quality, hi_res_lossless, lossless, rank}
use tidal_syncer.Config.Clock.{parse_clock}
use tidal_syncer.Config.Types.{
  Config, DurationRange, DaemonTimeWindow, Daemon, delay_range, minute, mode_polling,
  mode_time_window, polling_range,
}
use tidal_syncer.Config.TemplateCheck.{TemplateError, validate_path_template}

pub data Field : Type 0 where
  removal_policy daemon_mode daemon_polling window_start window_end time_window : Field
  jitter_worker quality_floor quality_request log_format client_id client_secret : Field

pub data Invalid : Type 0 where
  not_one_of required bad_clock : Field → Invalid
  negative_min negative_max min_above_max min_too_small max_too_small : Field → Invalid
  concurrency floor_above_request same_clock metrics_address : Invalid
  path_template : TemplateError → Invalid

-- Checks in order, each `if err := check; err != nil { return err }`.
abbrev pub first_error : List (Option Invalid) → Option Invalid
first_error [] = none
first_error (none ∷ checks) = first_error checks
first_error (some e ∷ checks) = some e

abbrev reject : Bool → Invalid → Option Invalid
reject true e = some e
reject false e = none

unfoldable pub require_one_of : Field → Text → List Text → Option Invalid
require_one_of field value allowed = reject (not (contains allowed value)) (not_one_of field)

unfoldable pub require_non_empty : Field → Text → Option Invalid
require_non_empty field value = reject (value == []) (required field)

unfoldable pub validate_concurrency : ℤ → Option Invalid
validate_concurrency n = reject (lt_ℤ n (pos 1) || lt_ℤ (pos 8) n) concurrency

unfoldable pub validate_duration_range : Field → DurationRange → ℕ → Option Invalid
validate_duration_range field rng floor = first_error (
    (reject (lt_ℤ rng.min (pos 0)) (negative_min field))
    ∷ (reject (lt_ℤ rng.max (pos 0)) (negative_max field))
    ∷ (reject (lt_ℤ rng.max rng.min) (min_above_max field))
    ∷ (reject (lt_ℤ rng.min (pos floor)) (min_too_small field))
    ∷ (reject (lt_ℤ rng.max (pos floor)) (max_too_small field))
    ∷ [])

abbrev is_none : Option (ℕ × ℕ) → Bool
is_none none = true
is_none (some t) = false

unfoldable pub validate_clock : Field → Text → Option Invalid
unfolding parse_clock
validate_clock field value = first_error (
    (reject (not (length value == 5) || not (get_or value 2 0 == b':')) (bad_clock field))
    ∷ (reject (is_none (parse_clock value)) (bad_clock field))
    ∷ [])

abbrev pub window_checks : DaemonTimeWindow → List (Option Invalid)
window_checks w =
    (validate_clock window_start w.start)
    ∷ (validate_clock window_end w.end)
    ∷ (reject (w.start == w.end) same_clock)
    ∷ (validate_duration_range time_window (delay_range w) minute)
    ∷ []

unfoldable pub validate_time_window : DaemonTimeWindow → Option Invalid
validate_time_window w = first_error (window_checks w)

-- The lossless tiers, which alone are allowed for the request and the floor.
unfoldable pub require_lossless : Field → Quality → Option Invalid
require_lossless field hi_res_lossless = none
require_lossless field lossless = none
require_lossless field q = some (not_one_of field)

abbrev template_invalid : Option TemplateError → Option Invalid
template_invalid none = none
template_invalid (some e) = some (path_template e)

module _ (split_host_port : Text → Bool) where
  -- The checks of `Validate`, in their order.
  abbrev pub checks : Config → List (Option Invalid)
  checks c =
      (require_one_of removal_policy c.removal_policy
        (codes "keep" ∷ codes "mirror" ∷ codes "trash" ∷ []))
      ∷ (require_one_of daemon_mode c.daemon.mode (mode_polling ∷ mode_time_window ∷ []))
      ∷ (validate_concurrency c.concurrency)
      ∷ (if c.daemon.mode == mode_polling
          then validate_duration_range daemon_polling (polling_range c.daemon) minute
          else none)
      ∷ (if c.daemon.mode == mode_time_window
          then validate_time_window c.daemon.time_window
          else none)
      ∷ (validate_duration_range jitter_worker c.worker_jitter 0)
      ∷ (require_lossless quality_floor c.quality.floor)
      ∷ (require_lossless quality_request c.quality.request)
      ∷ (reject (ltb (rank c.quality.request) (rank c.quality.floor)) floor_above_request)
      ∷ (require_one_of log_format c.log.format (codes "console" ∷ codes "json" ∷ []))
      ∷ (template_invalid (validate_path_template c.path_template))
      ∷ (require_non_empty client_id c.tidal_auth.client_id)
      ∷ (require_non_empty client_secret c.tidal_auth.client_secret)
      ∷ (if c.metrics.enabled
          then reject (not (split_host_port c.metrics.address)) metrics_address
          else none)
      ∷ []

  unfoldable pub validate : Config → Option Invalid
  validate c = first_error (checks c)

-- Five characters, with a colon in the middle, that parse as a time of the day.
abbrev pub IsClock : Text → Type 0
IsClock s = (length s ≡ 5) × (get_or s 2 0 ≡ b':') × (parse_clock s ≢ none)

-- What a valid range is: 0 and the floor are below its minimum, and that is below its maximum.
abbrev pub AtLeast : ℕ → DurationRange → Type 0
AtLeast floor rng = (lt_ℤ rng.min (pos floor) ≡ false) × (lt_ℤ rng.max rng.min ≡ false)

pub record IsValid (split_host_port : Text → Bool) (c : Config) : Type 0 where
  pub policy :
      (c.removal_policy ≡ codes "keep")
      ⊎ ((c.removal_policy ≡ codes "mirror") ⊎ (c.removal_policy ≡ codes "trash"))
  pub mode : (c.daemon.mode ≡ mode_polling) ⊎ (c.daemon.mode ≡ mode_time_window)
  pub workers : (lt_ℤ c.concurrency (pos 1) ≡ false) × (lt_ℤ (pos 8) c.concurrency ≡ false)
  pub band :
      (rank lossless ≤ rank c.quality.floor) × (rank c.quality.floor ≤ rank c.quality.request)
  pub polling : (c.daemon.mode ≢ mode_polling) ⊎ AtLeast minute (polling_range c.daemon)
  pub window :
      (c.daemon.mode ≢ mode_time_window)
      ⊎ ((c.daemon.time_window.start ≢ c.daemon.time_window.end)
          × IsClock c.daemon.time_window.start
          × IsClock c.daemon.time_window.end
          × AtLeast minute (delay_range c.daemon.time_window))
  pub jitter : AtLeast 0 c.worker_jitter
  pub format : (c.log.format ≡ codes "console") ⊎ (c.log.format ≡ codes "json")
  pub template : validate_path_template c.path_template ≡ none
  pub credentials : (c.tidal_auth.client_id ≢ []) × (c.tidal_auth.client_secret ≢ [])
  pub address : (c.metrics.enabled ≡ false) ⊎ (split_host_port c.metrics.address ≡ true)
