-- ===== src/Sync/Enumerate/Cache.antt =====
-- Collections in the cache, and a collection that lists a track twice.
use tidal_syncer.Shared.{
  ℕ, Bool, true, false, Bool-cases, Option-cases, inl, inr, Option, none, some, List, [], ◌∷◌,
  text_eq, nat_eq, ◌==◌, contains, if◌then◌else◌, arith, ◌≡◌, refl, ◌∙◌, ap, sym,
}
use tidal_syncer.Shared.Map.{Map, lookup, insert, lookup-insert}
use tidal_syncer.Tidal.Dto.{Track, stub}
use tidal_syncer.Sync.Enumerate.{emit_stubs}

-- The stub of an id, if the list has it.
abbrev pub stub_if : Bool → ℕ → Option Track
stub_if true id = some (stub id)
stub_if false id = none

abbrev pub or_else : Option Track → Option Track → Option Track
or_else (some t) later = some t
or_else none later = later

or_else-none : (o : Option Track) → o ≡ or_else o none
or_else-none none = refl
or_else-none (some t) = refl

seen_lem :
    (j : ℕ) (ids : List ℕ) (dst : Map ℕ Track) (id : ℕ) (t : Track)
    → lookup j dst ≡ some t
    → or_else (lookup id dst) (stub_if (contains ids id) id)
      ≡ or_else (lookup id dst) (stub_if (contains (j ∷ ids) id) id)
seen_lem j ids dst id t e = elim (Bool-cases (id == j)) [
  | inl same ↦ let found : lookup id dst ≡ some t = ground (arith, same, e) in rw found refl
  | inr apart ↦ rw apart refl
]

fresh_lem :
    (j : ℕ) (ids : List ℕ) (dst : Map ℕ Track) (id : ℕ)
    → lookup j dst ≡ none
    → or_else (if id == j then some (stub j) else lookup id dst) (stub_if (contains ids id) id)
      ≡ or_else (lookup id dst) (stub_if (contains (j ∷ ids) id) id)
fresh_lem j ids dst id e = elim (Bool-cases (id == j)) [
  | inl same ↦
      let found : lookup id dst ≡ none = ground (arith, same, e) in
      let this : id ≡ j = ground (arith, same) in
      rw (same, found) (ap (λ k. some (stub k)) (sym this))
  | inr apart ↦ rw apart refl
]

-- After the cached ids of a collection are emitted, a track that was there is unchanged, an id of the
-- collection that was not has its stub, and nothing else is added.
pub lookup-emit_stubs :
    (dst : Map ℕ Track) (ids : List ℕ) (id : ℕ)
    → lookup id (emit_stubs dst ids) ≡ or_else (lookup id dst) (stub_if (contains ids id) id)
unfolding emit_stubs
lookup-emit_stubs dst [] id = or_else-none (lookup id dst)
lookup-emit_stubs dst (j ∷ ids) id = elim (Option-cases (lookup j dst)) [
  | inr (t, e) ↦ rw e (lookup-emit_stubs dst ids id ∙ seen_lem j ids dst id t e)
  | inl e ↦ rw e (
      lookup-emit_stubs (insert j (stub j) dst) ids id
      ∙ rw lookup-insert (fresh_lem j ids dst id e))
]
