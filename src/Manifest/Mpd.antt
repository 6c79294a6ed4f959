-- ===== src/Manifest/Mpd.antt =====
-- pkg/tidal/manifest/dash.go: the part of an MPEG-DASH document that is read, and the URLs of its
-- segments. An `int` is its two's complement below 2 ^ 64: from 2 ^ 63 on it is negative.
pub mod Segments
pub mod Document
use tidal_syncer.Shared.{
  ℕ, zero, suc, ◌+◌, ◌-◌, ◌%◌, ◌^◌, Bool, true, false, ◌||◌, ◌&&◌, Option, none, some, List, [],
  ◌∷◌, ◌++◌, Text, codes, text_eq, nat_eq, ◌==◌, ltb, leb, length, if◌then◌else◌,
}
use tidal_syncer.Shared.Decimal.{itoa}
use tidal_syncer.Failure.{invalid_manifest, Result, ok, err}

pub record MpdSegment : Type 0 where
  pub repeat : ℕ

-- `mpdSegmentTemplate`, with the entries of its timeline.
pub record SegmentTemplate : Type 0 where
  pub initialization : Text
  pub media : Text
  pub start_number : Option ℕ
  pub timeline : List MpdSegment

pub record Representation : Type 0 where
  pub segment_template : SegmentTemplate

pub record AdaptationSet : Type 0 where
  pub mime_type : Text
  pub representations : List Representation

pub record Period : Type 0 where
  pub adaptation_sets : List AdaptationSet

pub record MpdDocument : Type 0 where
  pub periods : List Period

pub record Dash : Type 0 where
  pub mime_type : Text
  pub initialization : Text
  pub media : Text
  pub start_number : ℕ
  pub segment_count : ℕ

abbrev pub add_int : ℕ → ℕ → ℕ
add_int a b = (a + b) % 2 ^ 64

abbrev pub is_negative : ℕ → Bool
is_negative n = leb (2 ^ 63) n

-- `strconv.Itoa`
unfoldable pub itoa_int : ℕ → Text
itoa_int n = if is_negative n then b'-' ∷ itoa (2 ^ 64 - n) else itoa n

unfoldable pub has_prefix : Text → Text → Bool
has_prefix [] s = true
has_prefix (p ∷ ps) [] = false
has_prefix (p ∷ ps) (c ∷ s) = (p == c) && has_prefix ps s

-- `strings.ReplaceAll`, for an old text that is not empty; the number counts the characters of an
-- occurrence that are still to be left out.
unfoldable pub replace_from : Text → Text → ℕ → Text → Text
unfolding has_prefix
replace_from old new k [] = []
replace_from old new (suc k) (c ∷ s) = replace_from old new k s
replace_from old new zero (c ∷ s) =
    let rest = replace_from old new zero s in
    let behind = replace_from old new (length old - 1) s in
    if has_prefix old (c ∷ s) then new ++ behind else c ∷ rest

-- `numberPlaceholder`
abbrev pub number_placeholder : Text
number_placeholder = codes "$Number$"

unfoldable pub numbered : Text → ℕ → Text
unfolding replace_from itoa_int
numbered media n = replace_from number_placeholder (itoa_int n) zero media

-- The rounds of the loop of `SegmentURLs`, from the `i`th on.
unfoldable pub media_urls : Dash → ℕ → ℕ → List Text
unfolding numbered
media_urls d zero i = []
media_urls d (suc n) i = numbered d.media (add_int d.start_number i) ∷ media_urls d n (i + 1)

-- `make` panics on a capacity below 0, which is `none`; a range over a negative number has no rounds.
unfoldable pub segment_urls : Dash → Option (List Text)
unfolding media_urls
segment_urls d =
    let rounds = if is_negative d.segment_count then 0 else d.segment_count in
    if is_negative (add_int 1 d.segment_count)
    then none
    else some (d.initialization ∷ media_urls d rounds 0)

unfoldable pub total_from : ℕ → List MpdSegment → ℕ
total_from total [] = total
total_from total (s ∷ ss) = total_from (add_int total (add_int 1 s.repeat)) ss

unfoldable pub total_segments : List MpdSegment → ℕ
unfolding total_from
total_segments ss = total_from 0 ss

-- The loops return at the first representation.
abbrev pub first_in :
    AdaptationSet
    → List Representation
    → Option (AdaptationSet × Representation)
    → Option (AdaptationSet × Representation)
first_in set [] rest = rest
first_in set (rep ∷ reps) rest = some (set, rep)

abbrev pub or_else : {A : Type 0} → Option A → Option A → Option A
or_else none rest = rest
or_else (some x) rest = some x

unfoldable pub first_of_sets : List AdaptationSet → Option (AdaptationSet × Representation)
first_of_sets [] = none
first_of_sets (set ∷ sets) = first_in set set.representations (first_of_sets sets)

unfoldable pub first_of_periods : List Period → Option (AdaptationSet × Representation)
unfolding first_of_sets
first_of_periods [] = none
first_of_periods (p ∷ ps) = or_else (first_of_sets p.adaptation_sets) (first_of_periods ps)

unfoldable pub first_representation : MpdDocument → Option (AdaptationSet × Representation)
unfolding first_of_periods
first_representation doc = first_of_periods doc.periods

-- `defaultStartNumber` where the attribute is missing.
abbrev pub or_one : Option ℕ → ℕ
or_one none = 1
or_one (some n) = n

unfoldable pub dash_of : AdaptationSet → SegmentTemplate → Result Dash
unfolding total_segments
dash_of set tmpl =
    let count = total_segments tmpl.timeline in
    if tmpl.initialization == [] || tmpl.media == []
    then err (invalid_manifest ∷ [])
    else if count == 0
    then err (invalid_manifest ∷ [])
    else ok (record {
      mime_type = set.mime_type;
      initialization = tmpl.initialization;
      media = tmpl.media;
      start_number = or_one tmpl.start_number;
      segment_count = count;
    })

unfoldable pub dash_of_found : Option (AdaptationSet × Representation) → Result Dash
unfolding dash_of
dash_of_found none = err (invalid_manifest ∷ [])
dash_of_found (some (set, rep)) = dash_of set rep.segment_template

unfoldable pub to_dash : MpdDocument → Result Dash
unfolding first_representation dash_of_found
to_dash doc = dash_of_found (first_representation doc)
