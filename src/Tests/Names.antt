-- ===== src/Tests/Names.antt =====
-- Names, texts and the configuration.
use tidal_syncer.Shared.{
  ℕ, zero, suc, ◌++◌, ◌<◌, ◌≤◌, ◌≡◌, ◌↔◌, ◌⊎◌, refl, Bool, true, false, Option, none, some, List,
  [], ◌∷◌, Text, codes, length, take, All,
}
use tidal_syncer.Failure.{empty_template, ok, err}
use tidal_syncer.Config.Clock.{parse_clock, parse_clock_bounds}
use tidal_syncer.Config.Validate.{validate, IsValid}
use tidal_syncer.Config.Validate.Complete.{validate_lem}
use tidal_syncer.Namer.Sanitize.{sanitize, truncate_to_bytes}
use tidal_syncer.Namer.Sanitize.Truncation.{IsCut, truncate_to_bytes_lem}
use tidal_syncer.Namer.Template.{
  Template, TrackMeta, compile, compile_segment, expand, render, split,
}
use tidal_syncer.Namer.Template.RoundTrip.{source, source-compile_segment}
use tidal_syncer.Namer.Template.Paths.{IsSafe, render-IsSafe}
use tidal_syncer.Sync.Meta.{build_track_meta}
use tidal_syncer.Tests.Data.{same_text, config, song, disc}

parse_clock_bounds_example : (6 < 24) × (30 < 60)
unfolding parse_clock tidal_syncer.Shared.nat_eq
parse_clock_bounds_example = parse_clock_bounds (codes "6:30") 6 30 refl

validate_lem_example : (validate (λ s. true) config ≡ none) ↔ IsValid (λ s. true) config
validate_lem_example = validate_lem (λ s. true) config

truncate_to_bytes_lem_example :
    ((length (codes "héh") ≤ 2) × (truncate_to_bytes (codes "héh") 2 ≡ codes "héh"))
    ⊎ ((2 < length (codes "héh"))
        × (k : ℕ) × (truncate_to_bytes (codes "héh") 2 ≡ take k (codes "héh"))
        × IsCut (codes "héh") 2 k)
truncate_to_bytes_lem_example = truncate_to_bytes_lem (codes "héh") 2

source-compile_segment_example :
    source (compile_segment (codes "{track} - {x}")) ≡ codes "{track} - {x}"
source-compile_segment_example = source-compile_segment (codes "{track} - {x}")

abbrev meta : TrackMeta
meta = build_track_meta song disc

abbrev template : Template
template = compile config.path_template

render-IsSafe_example :
    (All (λ seg. expand seg meta ≡ []) template
      × (render same_text template meta ≡ err (empty_template ∷ [])))
    ⊎ ((path : Text) × (render same_text template meta ≡ ok path) × All IsSafe (split b'/' path))
render-IsSafe_example = render-IsSafe same_text (λ s h. h) template meta

abbrev spaces : ℕ → Text
spaces zero = []
spaces (suc n) = b' ' ∷ spaces n

-- A long name whose cut is a reserved one.
reserved_behind_the_cut : sanitize same_text (codes "CON" ++ spaces 252 ++ codes "x") ≡ codes "CON"
unfolding sanitize tidal_syncer.Namer.Sanitize.finish tidal_syncer.Namer.Sanitize.or_placeholder
    tidal_syncer.Namer.Sanitize.trim_right truncate_to_bytes
    tidal_syncer.Namer.Sanitize.suffix_if_reserved tidal_syncer.Shared.nat_eq
    tidal_syncer.Shared.text_eq tidal_syncer.Namer.Sanitize.stem_of
    tidal_syncer.Namer.Sanitize.is_reserved tidal_syncer.Namer.Sanitize.back_off
    tidal_syncer.Namer.Sanitize.sanitize_rune tidal_syncer.Namer.Sanitize.is_control
    tidal_syncer.Namer.Utf8.encode tidal_syncer.Namer.Utf8.encode_rune
    tidal_syncer.Namer.Utf8.rune_start tidal_syncer.Namer.Sanitize.keep_head
    tidal_syncer.Namer.Sanitize.to_upper
reserved_behind_the_cut = refl
