-- ===== src/Sync/PermanentFailure.antt =====
-- internal/sync/failure.go
use tidal_syncer.Shared.{
  ℕ, Bool, true, false, ◌||◌, Option, none, some, nat_eq, ◌==◌, if◌then◌else◌,
}
use tidal_syncer.Failure.{
  Error, below_floor, encrypted_skip, unsupported_manifest, track_unavailable, is, as_api_error,
}

abbrev is_not_found : Option ℕ → Bool
is_not_found none = false
is_not_found (some status) = status == 404

unfoldable pub permanent_failure : Error → Bool
permanent_failure cause =
    if is cause below_floor
      || (is cause encrypted_skip || (is cause unsupported_manifest || is cause track_unavailable))
    then true
    else is_not_found (as_api_error cause)
