-- ===== src/Config/TemplateCheck.antt =====
-- internal/config/validate.go: `parseTemplate` and `validatePathTemplate`.
use tidal_syncer.Shared.{
  true, false, Option, none, some, List, [], ◌∷◌, ◌++◌, Text, codes, nat_eq, text_eq, ◌==◌,
  contains, if◌then◌else◌,
}

pub data TemplateError : Type 0 where
  nested unmatched empty_placeholder unterminated : TemplateError
  missing : Text → TemplateError

pub data Parsed : Type 0 where
  parsed : List Text → Parsed
  malformed : TemplateError → Parsed

-- The loop over the runes: outside a placeholder, or inside one with its name so far.
pub data Mode : Type 0 where
  outside : Mode
  inside : Text → Mode

unfoldable pub parse_from : Mode → List Text → Text → Parsed
parse_from outside found [] = parsed found
parse_from (inside name) found [] = malformed unterminated
parse_from outside found (r ∷ rest) = elim (r == b'{') [
  | true ↦ parse_from (inside []) found rest
  | false ↦ elim (r == b'}') [ true ↦ malformed unmatched | false ↦ parse_from outside found rest ]
]
parse_from (inside name) found (r ∷ rest) = elim (r == b'{') [
  | true ↦ malformed nested
  | false ↦ elim (r == b'}') [
    | true ↦ elim (name == []) [
      | true ↦ malformed empty_placeholder
      | false ↦ parse_from outside (found ++ name ∷ []) rest
    ]
    | false ↦ parse_from (inside (name ++ r ∷ [])) found rest
  ]
]

unfoldable pub parse_template : Text → Parsed
unfolding parse_from
parse_template tmpl = parse_from outside [] tmpl

unfoldable pub require_placeholders : List Text → List Text → Option TemplateError
require_placeholders found [] = none
require_placeholders found (r ∷ required) =
    let rest = require_placeholders found required in
    if contains found r then rest else some (missing r)

unfoldable pub validate_path_template : Text → Option TemplateError
unfolding parse_template require_placeholders
validate_path_template tmpl = elim (parse_template tmpl) [
  | malformed e ↦ some e
  | parsed found ↦ require_placeholders found (codes "title" ∷ codes "ext" ∷ [])
]
