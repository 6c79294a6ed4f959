-- ===== src/Tidal/Pages/Whole.antt =====
-- A listing is yielded as a whole.
use mathlib.Core.List.{append_assoc, map-append}
use tidal_syncer.Shared.{
  ℕ, zero, suc, ◌+◌, ◌≤◌, ◌<◌, Bool-cases, ◌||◌, Option, some, inl, inr, List, [], ◌∷◌, ◌++◌, map,
  length, length-append, take, drop, take-append-drop, nat_eq, ◌==◌, leb, arith, ◌≡◌, refl, ◌∙◌,
  sym, ap,
}
use tidal_syncer.Shared.Int.{pos}
use tidal_syncer.Failure.{Result, ok}
use tidal_syncer.Tidal.Pages.{FavoriteEntry, FavoritesPage, yielding, behind, emit_favorites}

module _ {A : Type 0} where
  drop-append : (xs ys : List A) → drop (length xs) (xs ++ ys) ≡ ys
  drop-append [] ys = refl
  drop-append (x ∷ xs) ys = drop-append xs ys

  take-eq_self : (n : ℕ) (xs : List A) → length xs ≤ length (take n xs) → take n xs ≡ xs
  take-eq_self n [] h = take_nil n
    where
      take_nil : (n : ℕ) → take {A = A} n [] ≡ []
      take_nil zero = refl
      take_nil (suc n) = refl
  take-eq_self zero (x ∷ xs) h = absurd (omega arith)
  take-eq_self (suc n) (x ∷ xs) h = ap (λ ys. x ∷ ys) (take-eq_self n xs (omega arith))

  length-le-take : (n : ℕ) (xs : List A) → 0 < n → length (take n xs) ≡ 0 → length xs ≤ 0
  length-le-take zero xs p h = absurd (omega arith)
  length-le-take (suc n) [] p h = omega arith
  length-le-take (suc n) (x ∷ xs) p h = absurd (omega arith)

module _ {A : Type 0} (fetch : ℕ → Result (FavoritesPage A)) (items : List (FavoriteEntry A))
    (size : ℕ) where
  abbrev page_of : List (FavoriteEntry A) → FavoritesPage A
  page_of xs = record { total_number_of_items = pos (length items); items = xs }

  served :
      (done rest : List (FavoriteEntry A))
      → ((o : ℕ) → fetch o ≡ ok (page_of (take size (drop o items))))
      → done ++ rest ≡ items
      → fetch (length done) ≡ ok (page_of (take size rest))
  served done rest serves e =
      serves (length done)
      ∙ ap (λ xs. ok (page_of (take size xs)))
          (ap (drop (length done)) (sym e) ∙ drop-append done rest)

  emit_from :
      (fuel : ℕ) (done rest : List (FavoriteEntry A))
      → 0 < size
      → ((o : ℕ) → fetch o ≡ ok (page_of (take size (drop o items))))
      → done ++ rest ≡ items
      → length rest < fuel
      → emit_favorites fetch fuel (length done) ≡ some (yielding rest)
  unfolding emit_favorites nat_eq
  emit_from zero done rest p serves e h = absurd (omega arith)
  emit_from (suc fuel) done rest p serves e h =
      let next : length (drop size rest) < fuel
          → Path (Option (List (Result (FavoriteEntry A))))
              (behind (yielding (take size rest))
                (emit_favorites fetch fuel (length done + length (take size rest))))
              (some (yielding rest)) =
        λ smaller.
          rw
            (
              ← length-append done (take size rest),
              emit_from fuel (done ++ take size rest) (drop size rest) p serves
                  (append_assoc done (take size rest) (drop size rest)
                    ∙ ap (λ xs. done ++ xs) (take-append-drop size rest)
                    ∙ e)
                  smaller,
            )
            (ap some (
              sym (map-append ok (take size rest) (drop size rest))
              ∙ ap yielding (take-append-drop size rest))) in
      let test =
        length (take size rest) == 0
        || leb (length items) (length done + length (take size rest)) in
      let total : length items ≡ length done + length rest =
        ap length (sym e) ∙ length-append done rest in
      let parts : length (take size rest) + length (drop size rest) ≡ length rest =
        sym (length-append (take size rest) (drop size rest))
        ∙ ap length (take-append-drop size rest) in
      rw (served done rest serves e) (elim (Bool-cases test) [
        | inl last ↦ rw last (
            ap (λ xs. some (yielding xs))
              (take-eq_self size rest
                (ground (arith, last, total, parts, length-le-take size rest p))))
        | inr more ↦ rw more (next (ground (arith, more, total, parts)))
      ])

-- From a server that has some entries and gives at most `size` of them a page, at least one, the
-- listing yields all of them, each once and in their order, and ends within one page more than there
-- are entries.
pub emit_favorites-IsWhole :
    {A : Type 0} (fetch : ℕ → Result (FavoritesPage A)) (entries : List (FavoriteEntry A))
    (size : ℕ)
    → 0 < size
    → ((o : ℕ)
        → fetch o
          ≡ ok (record {
            total_number_of_items = pos (length entries);
            items = take size (drop o entries);
          }))
    → emit_favorites fetch (suc (length entries)) 0 ≡ some (map ok entries)
emit_favorites-IsWhole fetch entries size p serves =
    emit_from fetch entries size (suc (length entries)) [] entries p serves refl (omega arith)
