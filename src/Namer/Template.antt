-- ===== src/Namer/Template.antt =====
-- internal/namer/template.go and namer.go. A segment's `hint` only sizes a buffer and is left out.
pub mod RoundTrip
pub mod Paths
use tidal_syncer.Shared.{
  ℕ, zero, suc, ◌+◌, ◌-◌, Bool, true, false, Option, none, some, List, [], ◌∷◌, ◌++◌, map, ltb,
  if◌then◌else◌, Text, codes, text_eq, nat_eq, ◌==◌, length, take, drop,
}
use tidal_syncer.Shared.Decimal.{itoa}
use tidal_syncer.Failure.{empty_template, Result, ok, err}
use tidal_syncer.Namer.Sanitize.{sanitize}

-- Track, disc and volume numbers are not negative.
pub record TrackMeta : Type 0 where
  pub album_artist : Text
  pub artist : Text
  pub album : Text
  pub title : Text
  pub track : ℕ
  pub disc : ℕ
  pub year : Text
  pub ext : Text
  pub isrc : Text
  pub disc_count : ℕ

pub data TokenId : Type 0 where
  album_artist artist album title track disc year ext isrc : TokenId

-- `tokenNone` marks a literal.
pub data Part : Type 0 where
  literal : Text → Part
  token : TokenId → Part

abbrev pub token_text : TokenId → Text
token_text album_artist = codes "{albumartist}"
token_text artist = codes "{artist}"
token_text album = codes "{album}"
token_text title = codes "{title}"
token_text track = codes "{track}"
token_text disc = codes "{disc}"
token_text year = codes "{year}"
token_text ext = codes "{ext}"
token_text isrc = codes "{isrc}"

unfoldable pub token_id_of : Text → Option TokenId
token_id_of s =
    if s == token_text album_artist
    then some album_artist
    else if s == token_text artist
    then some artist
    else if s == token_text album
    then some album
    else if s == token_text title
    then some title
    else if s == token_text track
    then some track
    else if s == token_text disc
    then some disc
    else if s == token_text year
    then some year
    else if s == token_text ext
    then some ext
    else if s == token_text isrc
    then some isrc
    else none

-- `strings.IndexByte`
unfoldable pub index_byte : Text → ℕ → Option ℕ
index_byte [] b = none
index_byte (c ∷ cs) b =
    if c == b then some 0 else elim (index_byte cs b) [ none ↦ none | some i ↦ some (suc i) ]

unfoldable pub token_id_at : Text → Option (TokenId × ℕ)
unfolding index_byte token_id_of
token_id_at s = elim (index_byte s b'}') [
  | none ↦ none
  | some end ↦ elim (token_id_of (take (suc end) s)) [ none ↦ none | some id ↦ some (id, suc end) ]
]

-- `if lit.Len() > 0 { parts = append(parts, part{literal: lit.String()}) }`
flush : Text → List Part → List Part
flush [] parts = parts
flush (c ∷ cs) parts = literal (c ∷ cs) ∷ parts

-- The loop of `compileSegment` at `raw[i:]`, with the `skip` bytes of a token still to pass over.
unfoldable pub scan : ℕ → Text → Text → List Part
unfolding flush token_id_at
scan skip lit [] = flush lit []
scan (suc skip) lit (c ∷ cs) = scan skip lit cs
scan zero lit (c ∷ cs) = elim (c == b'{') [
  | false ↦ scan zero (lit ++ c ∷ []) cs
  | true ↦ elim (token_id_at (c ∷ cs)) [
    | none ↦ scan zero (lit ++ c ∷ []) cs
    | some (id, width) ↦ flush lit (token id ∷ scan (width - 1) [] cs)
  ]
]

unfoldable pub compile_segment : Text → List Part
unfolding scan
compile_segment raw = scan zero [] raw

-- `strings.Split(s, "/")`
cons_first : ℕ → List Text → List Text
cons_first c [] = (c ∷ []) ∷ []
cons_first c (s ∷ ss) = (c ∷ s) ∷ ss

unfoldable pub split : ℕ → Text → List Text
unfolding cons_first
split b [] = [] ∷ []
split b (c ∷ cs) = let rest = split b cs in if c == b then [] ∷ rest else cons_first c rest

-- `strings.Join(components, "/")`
unfoldable pub join : ℕ → List Text → Text
join b [] = []
join b (s ∷ []) = s
join b (s ∷ t ∷ ts) = s ++ b ∷ join b (t ∷ ts)

abbrev pub Template : Type 0
Template = List (List Part)

unfoldable pub compile : Text → Template
unfolding split compile_segment
compile template = map compile_segment (split b'/' template)

unfoldable pub pad_track : ℕ → Text
unfolding itoa
pad_track n = let s = itoa n in if ltb (length s) 2 then b'0' ∷ s else s

unfoldable pub token_value : TokenId → TrackMeta → Text
unfolding pad_track
token_value album_artist m = m.album_artist
token_value artist m = m.artist
token_value album m = m.album
token_value title m = m.title
token_value track m = pad_track m.track
token_value disc m = itoa m.disc
token_value year m = m.year
token_value ext m = m.ext
token_value isrc m = m.isrc

unfoldable pub value : Part → TrackMeta → Text
unfolding token_value
value (literal s) m = s
value (token id) m = token_value id m

unfoldable pub expand : List Part → TrackMeta → Text
unfolding value
expand [] m = []
expand (p ∷ ps) m = value p m ++ expand ps m

-- The disc directory goes before the last component.
unfoldable pub insert_disc_dir : Text → List Text → List Text
insert_disc_dir dir [] = dir ∷ []
insert_disc_dir dir (c ∷ []) = dir ∷ c ∷ []
insert_disc_dir dir (c ∷ d ∷ ds) = c ∷ insert_disc_dir dir (d ∷ ds)

module _ (nfc : Text → Text) where
  keep_component : Text → List Text → List Text
  keep_component [] rest = rest
  keep_component (c ∷ cs) rest = sanitize nfc (c ∷ cs) ∷ rest

  unfoldable pub components : Template → TrackMeta → List Text
  unfolding keep_component expand
  components [] m = []
  components (seg ∷ segs) m = keep_component (expand seg m) (components segs m)

  disc_dir : TrackMeta → Text
  disc_dir m = sanitize nfc (codes "Disc " ++ itoa m.disc)

  with_disc : TrackMeta → List Text → List Text
  unfolding disc_dir insert_disc_dir
  with_disc m cs = if ltb 1 m.disc_count then insert_disc_dir (disc_dir m) cs else cs

  unfoldable pub render_components : TrackMeta → List Text → Result Text
  unfolding with_disc join
  render_components m [] = err (empty_template ∷ [])
  render_components m (c ∷ cs) = ok (join b'/' (with_disc m (c ∷ cs)))

  unfoldable pub render : Template → TrackMeta → Result Text
  unfolding components render_components
  render t m = render_components m (components t m)
