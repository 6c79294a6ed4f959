-- ===== src/Namer/Template/RoundTrip.antt =====
-- Compiling a segment loses nothing of it.
use mathlib.Core.List.{append_assoc}
use tidal_syncer.Shared.{
  ℕ, zero, suc, ◌-◌, ◌≡◌, refl, ◌∙◌, ap, sym, some, List, [], ◌∷◌, ◌++◌, Bool-cases, Option-cases,
  inl, inr, Text, text_eq, nat_eq, ◌==◌, take, drop, take-append-drop, arith,
}
use tidal_syncer.Namer.Template.{
  TokenId, Part, literal, token, token_text, token_id_of, index_byte, token_id_at, flush, scan,
  compile_segment,
}

-- The template text that parts stand for.
abbrev pub source : List Part → Text
source [] = []
source (literal s ∷ ps) = s ++ source ps
source (token id ∷ ps) = token_text id ++ source ps

token_id_of_lem : (s : Text) (id : TokenId) → token_id_of s ≡ some id → s ≡ token_text id
unfolding token_id_of
token_id_of_lem s id h = ground arith

token_id_at_lem :
    (s : Text) (id : TokenId) (w : ℕ)
    → token_id_at s ≡ some (id, w)
    → (end : ℕ) × (w ≡ suc end) × (take (suc end) s ≡ token_text id)
unfolding token_id_at
token_id_at_lem s id w h = elim (Option-cases (index_byte s b'}')) [
  | inl absent ↦ absurd (ground arith)
  | inr (end, found) ↦ (end, ground arith, token_id_of_lem (take (suc end) s) id (ground arith))
]

source-flush : (lit : Text) (ps : List Part) → source (flush lit ps) ≡ lit ++ source ps
unfolding flush
source-flush [] ps = refl
source-flush (c ∷ lit) ps = refl

-- A token that is found stands for the text that it was found at.
source-token :
    (lit : Text) (c : ℕ) (raw : Text) (id : TokenId) (w : ℕ) (rest : List Part)
    → token_id_at (c ∷ raw) ≡ some (id, w)
    → source rest ≡ drop (w - 1) raw
    → source (flush lit (token id ∷ rest)) ≡ lit ++ c ∷ raw
source-token lit c raw id w rest found ih =
    let (end, width, text) = token_id_at_lem (c ∷ raw) id w found in
    let skipped : w - 1 ≡ end = omega arith in
    source-flush lit (token id ∷ rest)
    ∙ ap (λ t. lit ++ t)
        (ap (λ t. token_text id ++ t) (ih ∙ ap (λ n. drop n raw) skipped)
          ∙ ap (λ t. t ++ drop end raw) (sym text)
          ∙ take-append-drop (suc end) (c ∷ raw))

source-scan : (skip : ℕ) (lit raw : Text) → source (scan skip lit raw) ≡ lit ++ drop skip raw
unfolding scan
source-scan zero lit [] = source-flush lit []
source-scan (suc skip) lit [] = source-flush lit []
source-scan (suc skip) lit (c ∷ raw) = source-scan skip lit raw
source-scan zero lit (c ∷ raw) = elim (Bool-cases (c == b'{')) [
  | inl brace ↦ elim (Option-cases (token_id_at (c ∷ raw))) [
    | inl unknown ↦
        rw (brace, scan)
          (rw (unknown, scan)
            (source-scan zero (lit ++ c ∷ []) raw ∙ append_assoc lit (c ∷ []) raw))
    | inr ((id, w), found) ↦
        rw (brace, scan)
          (rw (found, scan) (source-token lit c raw id w _ found (source-scan (w - 1) [] raw)))
  ]
  | inr other ↦
      rw (other, scan) (source-scan zero (lit ++ c ∷ []) raw ∙ append_assoc lit (c ∷ []) raw)
]

-- The parts of a compiled segment stand for exactly the segment's text, unknown tokens and stray
-- braces included.
pub source-compile_segment : (raw : Text) → source (compile_segment raw) ≡ raw
unfolding compile_segment
source-compile_segment raw = source-scan zero [] raw
