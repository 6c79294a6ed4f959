-- ===== src/Namer/Utf8.antt =====
-- The bytes of a Go string.
use tidal_syncer.Shared.{
  ℕ, ◌+◌, ◌/◌, ◌%◌, Bool, not, ◌&&◌, [], ◌∷◌, ◌++◌, ltb, leb, if◌then◌else◌, Text,
}

unfoldable pub encode_rune : ℕ → Text
encode_rune c =
    if ltb c 0x80
    then c ∷ []
    else if ltb c 0x800
    then (0xC0 + c / 64) ∷ (0x80 + c % 64) ∷ []
    else if ltb c 0x10000
    then (0xE0 + c / 4096) ∷ (0x80 + c / 64 % 64) ∷ (0x80 + c % 64) ∷ []
    else (0xF0 + c / 262144) ∷ (0x80 + c / 4096 % 64) ∷ (0x80 + c / 64 % 64) ∷ (0x80 + c % 64) ∷ []

unfoldable pub encode : Text → Text
unfolding encode_rune
encode [] = []
encode (c ∷ cs) = encode_rune c ++ encode cs

-- `utf8.RuneStart`: not a continuation byte.
unfoldable pub rune_start : ℕ → Bool
rune_start b = not (leb 0x80 b && ltb b 0xC0)
