-- ===== src/Namer/Sanitize.antt =====
-- internal/namer/sanitize.go. Normalisation to NFC (golang.org/x/text) is the parameter `nfc`.
pub mod Safety
pub mod Truncation
use tidal_syncer.Shared.{
  ℕ, zero, suc, ◌+◌, ◌-◌, Bool, true, false, ◌&&◌, ◌||◌, List, [], ◌∷◌, ◌++◌, map, ltb, leb,
  if◌then◌else◌, Text, codes, text_eq, nat_eq, ◌==◌, contains, length, get_or, take, drop,
}
use tidal_syncer.Namer.Utf8.{encode, rune_start}

abbrev pub max_component_bytes : ℕ
max_component_bytes = 255

abbrev pub max_reserved_len : ℕ
max_reserved_len = 4

abbrev pub illegal_chars : Text
illegal_chars = codes "/\\:*?\"<>|"

abbrev pub trailing_cutset : Text
trailing_cutset = codes ". "

-- `unicode.IsControl`: the C0 and high controls and DEL.
unfoldable pub is_control : ℕ → Bool
is_control r = ltb r 0x20 || (leb 0x7F r && ltb r 0xA0)

unfoldable pub sanitize_rune : ℕ → ℕ
sanitize_rune r = if is_control r || contains illegal_chars r then b'_' else r

-- `strings.TrimRight`, whose cutset is ASCII and so is cut by bytes.
unfoldable pub keep_head : ℕ → Text → Text
keep_head c [] = if contains trailing_cutset c then [] else c ∷ []
keep_head c (d ∷ ds) = c ∷ d ∷ ds

unfoldable pub trim_right : Text → Text
trim_right [] = []
trim_right (c ∷ cs) = keep_head c (trim_right cs)

-- The part before the first dot, as `strings.Cut` gives it.
unfoldable pub stem_of : Text → Text
stem_of [] = []
stem_of (c ∷ cs) = if c == b'.' then [] else c ∷ stem_of cs

-- `strings.ToUpper` where it matters for the reserved names: on ASCII letters.
unfoldable pub to_upper : Text → Text
to_upper [] = []
to_upper (c ∷ cs) = (if leb b'a' c && leb c b'z' then c - 32 else c) ∷ to_upper cs

numbered : Text → ℕ → List Text
numbered prefix zero = []
numbered prefix (suc n) = (prefix ++ (b'0' + suc n) ∷ []) ∷ numbered prefix n

unfoldable pub reserved_names : List Text
unfolding numbered
reserved_names =
    (codes "CON" ∷ codes "PRN" ∷ codes "AUX" ∷ codes "NUL" ∷ [])
    ++ numbered (codes "COM") 9
    ++ numbered (codes "LPT") 9

unfoldable pub is_reserved : Text → Bool
unfolding reserved_names to_upper
is_reserved stem = contains reserved_names (to_upper stem)

unfoldable pub suffix_if_reserved : Text → Text
suffix_if_reserved name =
    let stem = stem_of name in
    if length stem == 0 || ltb max_reserved_len (length stem)
    then name
    else if is_reserved stem
    then stem ++ b'_' ∷ drop (length stem) name
    else name

-- `for cut > 0 && !utf8.RuneStart(s[cut]) { cut-- }`
unfoldable pub back_off : Text → ℕ → ℕ
back_off s zero = 0
back_off s (suc n) = elim (rune_start (get_or s (suc n) 0)) [ true ↦ suc n | false ↦ back_off s n ]

unfoldable pub truncate_to_bytes : Text → ℕ → Text
truncate_to_bytes s max_bytes =
    if leb (length s) max_bytes then s else take (back_off s max_bytes) s

unfoldable pub or_placeholder : Text → Text
or_placeholder [] = codes "_"
or_placeholder (c ∷ cs) = c ∷ cs

-- The steps of `Sanitize` after normalisation.
unfoldable pub finish : Text → Text
finish cleaned =
    or_placeholder
      (trim_right (truncate_to_bytes (suffix_if_reserved (trim_right cleaned)) max_component_bytes))

module _ (nfc : Text → Text) where
  unfoldable pub sanitize : Text → Text
  sanitize component = finish (encode (nfc (map sanitize_rune component)))
