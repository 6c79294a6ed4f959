-- ===== src/Store/Rows.antt =====
-- INSERTs under a primary key: the loops of ReplaceSnapshot and PutCollection.
use mathlib.Core.List.{append-nil, append_assoc}
use tidal_syncer.Shared.{
  ◌≡◌, refl, ◌∙◌, ◌⊎◌, inl, inr, false, ◌||◌, Bool-cases, List, [], ◌∷◌, ◌++◌, map, Eq, ◌==◌,
  contains, if◌then◌else◌, All, arith,
}
use tidal_syncer.Failure.{constraint, Result, ok, err}

-- No element twice.
abbrev pub Distinct {ℓ} : {K : Type ℓ} ⦃e : Eq K⦄ → List K → Type 0
Distinct [] = Unit
Distinct (k ∷ ks) = (contains ks k ≡ false) × Distinct ks

module _ {ℓ} {K : Type ℓ} ⦃e : Eq K⦄ where
  pub contains-append :
      (xs ys : List K) (k : K) → contains (xs ++ ys) k ≡ (contains xs k || contains ys k)
  contains-append [] ys k = refl
  contains-append (x ∷ xs) ys k = ground (arith, contains-append xs ys k)

module _ {ℓ κ} {A : Type ℓ} {K : Type κ} ⦃e : Eq K⦄ (key : A → K) where
  -- A row whose key is stored already breaks the primary key.
  unfoldable pub insert_rows : List A → List A → Result (List A)
  insert_rows stored [] = ok stored
  insert_rows stored (row ∷ rows) =
      let rest = insert_rows (stored ++ row ∷ []) rows in
      if contains (map key stored) (key row) then err (constraint ∷ []) else rest

  -- None of the keys is stored.
  abbrev Fresh : List A → List A → Type 0
  Fresh stored rows = All (λ row. contains (map key stored) (key row) ≡ false) rows

  map-snoc :
      (stored : List A) (row : A) → map key (stored ++ row ∷ []) ≡ map key stored ++ key row ∷ []
  map-snoc [] row = refl
  map-snoc (s ∷ stored) row = rw (map-snoc stored row)

  contains-snoc :
      (stored : List A) (row : A) (k : K)
      → contains (map key (stored ++ row ∷ [])) k ≡ (contains (map key stored) k || k == key row)
  contains-snoc stored row k =
      rw map-snoc (contains-append (map key stored) (key row ∷ []) k ∙ ground arith)

  Fresh-snoc :
      (stored rows : List A) (row : A)
      → Fresh stored rows
      → contains (map key rows) (key row) ≡ false
      → Fresh (stored ++ row ∷ []) rows
  Fresh-snoc stored [] row h n = tt
  Fresh-snoc stored (r ∷ rows) row h n = (
    ground (arith, contains-snoc stored row (key r), h.0),
    Fresh-snoc stored rows row h.1 (ground arith),
  )

  Fresh-unsnoc :
      (stored rows : List A) (row : A)
      → Fresh (stored ++ row ∷ []) rows
      → Fresh stored rows × (contains (map key rows) (key row) ≡ false)
  Fresh-unsnoc stored [] row h = (tt, refl)
  Fresh-unsnoc stored (r ∷ rows) row h =
      let (fresh, absent) = Fresh-unsnoc stored rows row h.1 in
      (
        (ground (arith, contains-snoc stored row (key r), h.0), fresh),
        ground (arith, contains-snoc stored row (key r), h.0, absent),
      )

  insert_rows-eq-ok :
      (stored rows : List A)
      → Distinct (map key rows)
      → Fresh stored rows
      → insert_rows stored rows ≡ ok (stored ++ rows)
  unfolding insert_rows
  insert_rows-eq-ok stored [] d f = rw append-nil
  insert_rows-eq-ok stored (row ∷ rows) d f = rw f.0 (
      insert_rows-eq-ok (stored ++ row ∷ []) rows d.1 (Fresh-snoc stored rows row f.1 d.0)
      ∙ rw append_assoc)

  insert_rows_inv :
      (stored rows : List A)
      → (insert_rows stored rows ≡ err (constraint ∷ []))
        ⊎ (Distinct (map key rows) × Fresh stored rows)
  unfolding insert_rows
  insert_rows_inv stored [] = inr (tt, tt)
  insert_rows_inv stored (row ∷ rows) = elim (Bool-cases (contains (map key stored) (key row))) [
    | inl old ↦ inl (rw old)
    | inr new ↦ elim (insert_rows_inv (stored ++ row ∷ []) rows) [
      | inl failed ↦ inl (rw new failed)
      | inr (distinct, fresh) ↦
          let (kept, absent) = Fresh-unsnoc stored rows row fresh in
          inr ((absent, distinct), (new, kept))
    ]
  ]

  Fresh-nil : (rows : List A) → Fresh [] rows
  Fresh-nil [] = tt
  Fresh-nil (r ∷ rows) = (refl, Fresh-nil rows)

  -- Into an empty table the rows go in exactly where their keys are distinct; else the statement
  -- breaks the primary key.
  pub insert_rows_lem :
      (rows : List A)
      → (Distinct (map key rows) × (insert_rows [] rows ≡ ok rows))
        ⊎ (¬ Distinct (map key rows) × (insert_rows [] rows ≡ err (constraint ∷ [])))
  insert_rows_lem rows = elim (insert_rows_inv [] rows) [
    | inl failed ↦ inr (λ d. cc (failed, insert_rows-eq-ok [] rows d (Fresh-nil rows)), failed)
    | inr (distinct, fresh) ↦ inl (distinct, insert_rows-eq-ok [] rows distinct fresh)
  ]
