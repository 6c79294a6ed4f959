-- ===== src/Sync/Playlist/Reader.antt =====
-- What a player reads from an exported playlist.
use tidal_syncer.Shared.{
  ℕ, suc, Bool, true, false, Bool-cases, inl, inr, List, [], ◌∷◌, ◌++◌, map, Text, codes, text_eq,
  nat_eq, ◌==◌, All, All-append, if◌then◌else◌, arith, ◌≡◌, refl, ◌∙◌, ap,
}
use tidal_syncer.Shared.Int.{ℤ, pos, negsuc}
use tidal_syncer.Shared.Decimal.{itoa, itoa-All}
use tidal_syncer.Namer.Template.{split}
use tidal_syncer.Namer.Template.Paths.{Lacks, split-append}
use tidal_syncer.Sync.Playlist.{
  Entry, newline, m3u_header, decimal, extinf_line, entry_lines, m3u8_text,
}

-- A line of an M3U file names a file unless it is empty or starts with '#'.
abbrev names_file : Text → Bool
names_file [] = false
names_file (c ∷ s) = if c == b'#' then false else true

abbrev files_of : List Text → List Text
files_of [] = []
files_of (line ∷ lines) = let rest = files_of lines in if names_file line then line ∷ rest else rest

abbrev pub read_m3u8 : Text → List Text
read_m3u8 text = files_of (split newline text)

-- The title and the artist have no line break, nor has the path, which names a file.
abbrev pub IsOneLine : Entry → Type 0
IsOneLine e =
    Lacks newline e.artist
    × Lacks newline e.title
    × Lacks newline e.path
    × (names_file e.path ≡ true)

Lacks-itoa : (n : ℕ) → Lacks newline (itoa n)
unfolding nat_eq
Lacks-itoa n = itoa-All (λ c. (c == newline) ≡ false) (λ d h. ground arith) n

Lacks-decimal : (z : ℤ) → Lacks newline (decimal z)
unfolding nat_eq
Lacks-decimal (pos n) = Lacks-itoa n
Lacks-decimal (negsuc n) = (refl, Lacks-itoa (suc n))

-- What stands behind the comma.
label : Entry → Text
label e = if e.artist == [] then e.title else e.artist ++ (codes " - " ++ e.title)

Lacks-label : (e : Entry) → IsOneLine e → Lacks newline (label e)
unfolding label nat_eq
Lacks-label e (artist, title, path, named) = elim (Bool-cases (e.artist == [])) [
  | inl no_artist ↦ rw no_artist title
  | inr some_artist ↦ rw some_artist (
      All-append (λ c. (c == newline) ≡ false) e.artist (codes " - " ++ e.title) artist
        (refl, (refl, (refl, title))))
]

-- The directive without its first character.
tail_of : Entry → Text
tail_of e = codes "EXTINF:" ++ (decimal e.duration_seconds ++ b',' ∷ label e)

Lacks-tail_of : (e : Entry) → IsOneLine e → Lacks newline (tail_of e)
unfolding tail_of nat_eq
Lacks-tail_of e h = (
  refl,
  (
    refl,
    (
      refl,
      (
        refl,
        (
          refl,
          (
            refl,
            (
              refl,
              All-append (λ c. (c == newline) ≡ false) (decimal e.duration_seconds) (b',' ∷ label e)
                  (Lacks-decimal e.duration_seconds) (refl, Lacks-label e h),
            ),
          ),
        ),
      ),
    ),
  ),
)

-- The directive is a comment, and the path behind it is read.
files-entry :
    (e : Entry) (es : List Entry)
    → IsOneLine e
    → files_of (split newline (entry_lines (e ∷ es)))
      ≡ e.path ∷ files_of (split newline (entry_lines es))
unfolding entry_lines extinf_line tail_of label nat_eq
files-entry e es h =
    ap files_of (
      split-append newline (b'#' ∷ tail_of e) (e.path ++ newline ∷ entry_lines es)
        (refl, Lacks-tail_of e h)
      ∙ ap (λ lines. (b'#' ∷ tail_of e) ∷ lines) (split-append newline e.path (entry_lines es) h.2))
    ∙ kept e.path (split newline (entry_lines es)) h.3
  where
    kept :
        (s : Text) (lines : List Text)
        → names_file s ≡ true
        → files_of (s ∷ lines) ≡ s ∷ files_of lines
    kept s lines n = rw n refl

files-entry_lines :
    (es : List Entry)
    → All IsOneLine es
    → files_of (split newline (entry_lines es)) ≡ map (λ e. e.path) es
unfolding entry_lines split
files-entry_lines [] h = refl
files-entry_lines (e ∷ es) h =
    files-entry e es h.0 ∙ ap (λ ps. e.path ∷ ps) (files-entry_lines es h.1)

-- Reading an exported playlist back gives the paths of its entries in their order, if the titles, the
-- artists and the paths have no line break and no path is empty or begins with '#'.
pub read-m3u8_text :
    (es : List Entry) → All IsOneLine es → read_m3u8 (m3u8_text es) ≡ map (λ e. e.path) es
unfolding m3u8_text nat_eq
read-m3u8_text es h =
    ap files_of (split-append newline m3u_header (entry_lines es) lacks) ∙ files-entry_lines es h
  where
    lacks : Lacks newline m3u_header
    lacks = (refl, (refl, (refl, (refl, (refl, (refl, (refl, tt)))))))
