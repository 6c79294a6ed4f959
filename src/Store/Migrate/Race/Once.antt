-- ===== src/Store/Migrate/Race/Once.antt =====
-- Each migration is executed once, in the order of the files, however the processes interleave.
use mathlib.Core.Path.{subst}
use mathlib.Core.List.{append-nil, append_assoc, map-append}
use tidal_syncer.Shared.{
  ℕ, true, false, Bool-cases, Option, inl, inr, ◌⊎◌, List, [], ◌∷◌, ◌++◌, map, nat_eq, ◌==◌,
  contains, arith, ◌≡◌, ◌≢◌, refl, ◌∙◌, sym, ap,
}
use tidal_syncer.Failure.{Result, ok, err}
use tidal_syncer.Store.Migrate.{Catalog, File, Faults, migration_version, recorded, run_migration}
use tidal_syncer.Store.Migrate.Tx.{
  Ran, failed, skipped, added, run_migration-Ran, Checked, refused, present, absent,
  check_migration-Checked,
}
use tidal_syncer.Store.Migrate.Race.{
  Pc, at_files, in_between, stopped, checked_step, ran_step, advance, System, step, run, start,
}

abbrev pub or_zero : Result ℕ → ℕ
or_zero (err e) = 0
or_zero (ok v) = v

-- The version in the name of a file, and 0 where there is none.
abbrev pub version : File → ℕ
version f = or_zero (migration_version f.name)

-- No two files have the same version, nor one of those seen.
abbrev pub AreFresh : List ℕ → List File → Type 0
AreFresh seen [] = Unit
AreFresh seen (f ∷ fs) = (contains seen (version f) ≡ false) × AreFresh (seen ++ version f ∷ []) fs

AreFresh-middle :
    (seen : List ℕ) (done : List File) (f : File) (rest : List File)
    → AreFresh seen (done ++ f ∷ rest)
    → contains (seen ++ map version done) (version f) ≡ false
AreFresh-middle seen [] f rest h = rw (append-nil seen) h.0
AreFresh-middle seen (g ∷ done) f rest h =
    subst (λ xs. contains xs (version f) ≡ false)
      (append_assoc seen (version g ∷ []) (map version done))
      (AreFresh-middle (seen ++ version g ∷ []) done f rest h.1)

abbrev IsSuffix : List File → List File → Type 0
IsSuffix q done = (p : List File) × (p ++ q ≡ done)

contains-middle : (xs ys : List ℕ) (v : ℕ) → contains (xs ++ v ∷ ys) v ≡ true
unfolding nat_eq
contains-middle [] ys v = ground arith
contains-middle (x ∷ xs) ys v = ground (arith, contains-middle xs ys v)

IsSuffix-contains :
    (f : File) (q done : List File)
    → IsSuffix (f ∷ q) done
    → contains (map version done) (version f) ≡ true
IsSuffix-contains f q done (p, e) =
    rw (← e, map-append version p (f ∷ q))
      (contains-middle (map version p) (map version q) (version f))

IsSuffix-tail : (f : File) (q done : List File) → IsSuffix (f ∷ q) done → IsSuffix q done
IsSuffix-tail f q done (p, e) = (p ++ f ∷ [], append_assoc p (f ∷ []) q ∙ e)

IsSuffix-append :
    (q done : List File) (f : File) → IsSuffix q done → IsSuffix (q ++ f ∷ []) (done ++ f ∷ [])
IsSuffix-append q done f (p, e) = (p, sym (append_assoc p q (f ∷ [])) ∙ ap (λ xs. xs ++ f ∷ []) e)

-- What is left for a process: some of the files that are done, and all of those that are not.
Place : List File → List File → Pc → Type 0
Place done todo (at_files rest) = (q : List File) × IsSuffix q done × (rest ≡ q ++ todo)
Place done todo (in_between v ddl rest) =
    (f : File) × (q : List File) × (migration_version f.name ≡ ok v)
    × (f.ddl ≡ ddl)
    × IsSuffix q done
    × (f ∷ rest ≡ q ++ todo)
Place done todo stopped = Unit

Place-more :
    (done : List File) (f : File) (todo : List File) (p : Pc)
    → Place done (f ∷ todo) p
    → Place (done ++ f ∷ []) todo p
unfolding Place
Place-more done f todo (at_files rest) (q, s, e) =
    (q ++ f ∷ [], IsSuffix-append q done f s, e ∙ sym (append_assoc q (f ∷ []) todo))
Place-more done f todo (in_between v ddl rest) (g, q, n, d, s, e) =
    (g, q ++ f ∷ [], n, d, IsSuffix-append q done f s, e ∙ sym (append_assoc q (f ∷ []) todo))
Place-more done f todo stopped h = tt

module _ (files : List File) (fresh : AreFresh [] files) where
  -- A database that has the first migrations, each once.
  HasFirst : List File → List File → Catalog → Type 0
  HasFirst done todo db =
      (done ++ todo ≡ files)
      × (db.versions ≡ map version done)
      × (db.executed ≡ map (λ f. f.ddl) done)

  tails :
      (f g : File) (rest q todo : List File)
      → f ∷ rest ≡ g ∷ q ++ todo
      → (f ≡ g) × (rest ≡ q ++ todo)
  tails f g rest q todo e = (cc, cc)

  -- If the version of the next file is there, the file is one of those that are done.
  there :
      (done todo : List File) (db : Catalog) (f : File) (q rest : List File)
      → HasFirst done todo db
      → IsSuffix q done
      → f ∷ rest ≡ q ++ todo
      → contains db.versions (version f) ≡ true
      → Place done todo (at_files rest)
  unfolding HasFirst Place
  there done todo db f [] rest (split, v, x) s e c =
      let none_there : contains (map version done) (version f) ≡ false =
        AreFresh-middle [] done f rest
          (subst (AreFresh []) (sym (ap (λ t. done ++ t) e ∙ split)) fresh) in
      absurd (ground (arith, none_there, subst (λ vs. contains vs (version f) ≡ true) v c))
  there done todo db f (g ∷ q) rest h s e c =
      (q, IsSuffix-tail g q done s, (tails f g rest q todo e).1)

  -- If it is missing, the file is the next one that is not done.
  missing :
      (done todo : List File) (db : Catalog) (f : File) (q rest : List File)
      → HasFirst done todo db
      → IsSuffix q done
      → f ∷ rest ≡ q ++ todo
      → contains db.versions (version f) ≡ false
      → todo ≡ f ∷ rest
  unfolding HasFirst
  missing done todo db f [] rest h s e c = sym e
  missing done todo db f (g ∷ q) rest (split, v, x) s e c =
      let same : f ≡ g = (tails f g rest q todo e).0 in
      let is_there : contains (map version done) (version g) ≡ true =
        IsSuffix-contains g q done s in
      let is_not : contains (map version done) (version g) ≡ false =
        subst (λ k. contains (map version done) (version k) ≡ false) same
          (subst (λ vs. contains vs (version f) ≡ false) v c) in
      absurd (ground (arith, is_there, is_not))

  -- A step: what is done grows, and every place stays one.
  Moved : List File → List File → Pc × Catalog → Type 0
  Moved done todo (p, db) =
      (done2 : List File) × (todo2 : List File) × HasFirst done2 todo2 db
      × Place done2 todo2 p
      × ((o : Pc) → Place done todo o → Place done2 todo2 o)

  stayed :
      (done todo : List File) (p : Pc) (db : Catalog)
      → HasFirst done todo db
      → Place done todo p
      → Moved done todo (p, db)
  unfolding Moved
  stayed done todo p db h k = (done, todo, h, k, λ o l. l)

  checked_step-Moved :
      (done todo : List File) (db : Catalog) (f : File) (rest q : List File) (r : Result (Option ℕ))
      → HasFirst done todo db
      → IsSuffix q done
      → f ∷ rest ≡ q ++ todo
      → Checked f.name db r
      → Moved done todo (checked_step f rest r, db)
  unfolding Place
  checked_step-Moved done todo db f rest q r h s e (refused x) = stayed done todo stopped db h tt
  checked_step-Moved done todo db f rest q r h s e (present v n c) =
      stayed done todo (at_files rest) db h (there done todo db f q rest h s e (rw n c))
  checked_step-Moved done todo db f rest q r h s e (absent v n c) =
      stayed done todo (in_between v f.ddl rest) db h (f, q, n, refl, s, e)

  recorded-HasFirst :
      (done rest : List File) (db : Catalog) (f : File) (v : ℕ)
      → HasFirst done (f ∷ rest) db
      → migration_version f.name ≡ ok v
      → HasFirst (done ++ f ∷ []) rest (recorded v f.ddl db)
  unfolding HasFirst
  recorded-HasFirst done rest db f v (split, vs, xs) n = (
    append_assoc done (f ∷ []) rest ∙ split,
    ap (λ ws. ws ++ v ∷ []) vs
        ∙ ap (λ w. map version done ++ or_zero w ∷ []) (sym n)
        ∙ sym (map-append version done (f ∷ [])),
    ap (λ ws. ws ++ f.ddl ∷ []) xs ∙ sym (map-append (λ g. g.ddl) done (f ∷ [])),
  )

  added-Moved :
      (done todo : List File) (db : Catalog) (f : File) (rest : List File) (v : ℕ)
      → HasFirst done todo db
      → migration_version f.name ≡ ok v
      → todo ≡ f ∷ rest
      → Moved done todo (at_files rest, recorded v f.ddl db)
  unfolding Moved Place
  added-Moved done todo db f rest v h n e = (
    done ++ f ∷ [],
    rest,
    recorded-HasFirst done rest db f v (subst (λ t. HasFirst done t db) e h) n,
    ([], (done ++ f ∷ [], append-nil (done ++ f ∷ [])), refl),
    λ o l. Place-more done f rest o (subst (λ t. Place done t o) e l),
  )

  ran_step-Moved :
      (done todo : List File) (db : Catalog) (f : File) (rest q : List File) (v : ℕ)
      (r : Result (Unit {0}) × Catalog)
      → HasFirst done todo db
      → migration_version f.name ≡ ok v
      → IsSuffix q done
      → f ∷ rest ≡ q ++ todo
      → Ran v f.ddl db r
      → Moved done todo (ran_step rest r)
  unfolding Place
  ran_step-Moved done todo db f rest q v r h n s e (failed x) = stayed done todo stopped db h tt
  ran_step-Moved done todo db f rest q v r h n s e (skipped c) =
      stayed done todo (at_files rest) db h (there done todo db f q rest h s e (rw n c))
  ran_step-Moved done todo db f rest q v r h n s e (added c) =
      added-Moved done todo db f rest v h n (missing done todo db f q rest h s e (rw n c))

  advance-Moved :
      (faults : Faults) (done todo : List File) (p : Pc) (db : Catalog)
      → HasFirst done todo db
      → Place done todo p
      → Moved done todo (advance faults p db)
  unfolding advance Place
  advance-Moved faults done todo (at_files []) db h k = stayed done todo (at_files []) db h k
  advance-Moved faults done todo (at_files (f ∷ rest)) db h (q, s, e) =
      checked_step-Moved done todo db f rest q _ h s e (check_migration-Checked faults f.name db)
  advance-Moved faults done todo (in_between v ddl rest) db h (f, q, n, d, s, e) =
      subst (λ t. Moved done todo (ran_step rest (run_migration faults v t db))) d
        (ran_step-Moved done todo db f rest q v _ h n s e (run_migration-Ran faults v f.ddl db))
  advance-Moved faults done todo stopped db h k = stayed done todo stopped db h k

  Inv : System → Type 0
  Inv s =
      (done : List File) × (todo : List File) × HasFirst done todo s.db
      × ((i : ℕ) → Place done todo (s.pc i))

  step-Inv : (i : ℕ) (faults : Faults) (s : System) → Inv s → Inv (step i faults s)
  unfolding Inv step Moved
  step-Inv i faults s (done, todo, h, k) =
      let (done2, todo2, h2, p, more) = advance-Moved faults done todo (s.pc i) s.db h (k i) in
      (
        done2,
        todo2,
        h2,
        λ j. elim (Bool-cases (j == i)) [
          | inl mine ↦ rw mine p
          | inr other ↦ rw other (more (s.pc j) (k j))
        ],
      )

  run-Inv : (schedule : List (ℕ × Faults)) (s : System) → Inv s → Inv (run schedule s)
  unfolding run
  run-Inv [] s h = h
  run-Inv ((i, faults) ∷ schedule) s h = run-Inv schedule (step i faults s) (step-Inv i faults s h)

finished : (done todo : List File) (p : Pc) → Place done todo p → (p ≢ at_files []) ⊎ (todo ≡ [])
unfolding Place
finished done todo (at_files []) ([], s, e) = inr (sym e)
finished done todo (at_files []) (f ∷ q, s, e) = absurd cc
finished done todo (at_files (f ∷ rest)) h = inl λ e. cc
finished done todo (in_between v ddl rest) h = inl λ e. cc
finished done todo stopped h = inl λ e. cc

-- Whatever steps any number of processes take, in whatever order and with whatever errors: if no two
-- files have the same version, the database has the first of the migrations, each executed and
-- recorded once and in the order of the files; and it has all of them once a process is through. At the
-- start it has those of `old`.
pub run-IsOnce :
    (old new : List File) (db : Catalog) (schedule : List (ℕ × Faults)) (i : ℕ)
    → AreFresh [] (old ++ new)
    → db.versions ≡ map version old
    → db.executed ≡ map (λ f. f.ddl) old
    → let s = run schedule (start (old ++ new) db) in
      (done : List File) × (todo : List File) × (done ++ todo ≡ old ++ new)
      × (s.db.versions ≡ map version done)
      × (s.db.executed ≡ map (λ f. f.ddl) done)
      × ((s.pc i ≢ at_files []) ⊎ (todo ≡ []))
unfolding start Inv HasFirst Place
run-IsOnce old new db schedule i fresh v x =
    let (done, todo, (split, vs, xs), places) =
      run-Inv (old ++ new) fresh schedule (start (old ++ new) db)
        (old, new, (refl, v, x), λ j. (old, ([], refl), refl)) in
    (
      done,
      todo,
      split,
      vs,
      xs,
      finished done todo ((run schedule (start (old ++ new) db)).pc i) (places i),
    )
