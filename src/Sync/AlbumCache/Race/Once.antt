-- ===== src/Sync/AlbumCache/Race/Once.antt =====
-- No loader is started twice for an id.
use mathlib.Core.Path.{subst}
use tidal_syncer.Shared.{
  ℕ, suc, ◌<◌, Bool, true, false, Bool-cases, inl, inr, ◌⊎◌, Option, none, some, List, [], ◌∷◌,
  Text, text_eq, nat_eq, ◌==◌, contains, arith, ◌≡◌, refl, ◌∙◌, ap, sym,
}
use tidal_syncer.Shared.Map.{lookup, insert, lookup-insert, lookup-insert_self}
use tidal_syncer.Store.Rows.{Distinct}
use tidal_syncer.Sync.AlbumCache.{AlbumEntry}
use tidal_syncer.Sync.AlbumCache.Race.{
  Slot, fresh, running, loaded, Phase, arrived, holding, loading, returned, SharedCache, set, enter,
  find_entry, once, loader_done, worker_step, run_loads, at_start,
}

abbrev is_fresh : Slot → Bool
is_fresh fresh = true
is_fresh running = false
is_fresh (loaded entry) = false

-- The entry of an id, which stays where it is.
abbrev IsEntry : SharedCache → Text → ℕ → Type 0
IsEntry c id n = (lookup id c.index ≡ some n) × (n < c.next)

record IsSound (c : SharedCache) : Type 0 where
  distinct : Distinct c.loads
  started :
      (id : Text)
      → contains c.loads id ≡ true
      → (n : ℕ) × IsEntry c id n × (is_fresh (c.slots n) ≡ false)
  bounded : (id : Text) (n : ℕ) → lookup id c.index ≡ some n → n < c.next
  held : (w : ℕ) (id : Text) (n : ℕ) → c.phases w ≡ holding id n → IsEntry c id n

-- A worker that moves on, to an entry that is the id's.
enter-IsSound :
    (w : ℕ) (p : Phase) (c : SharedCache)
    → IsSound c
    → ((id : Text) (n : ℕ) → p ≡ holding id n → IsEntry c id n)
    → IsSound (enter w p c)
unfolding nat_eq
enter-IsSound w p c s own = record {
  distinct = s.distinct;
  started = s.started;
  bounded = s.bounded;
  held = λ v id n e. elim (Bool-cases (v == w)) [
    | inl same ↦ own id n (rw same at e)
    | inr other ↦ s.held v id n (rw other at e)
  ];
}

holding-injective : (i j : Text) (n m : ℕ) → holding i n ≡ holding j m → (i ≡ j) × (n ≡ m)
holding-injective i j n m e = (cc, cc)

abbrev inserted : Text → SharedCache → SharedCache
inserted id c = record c {
  index = insert id c.next c.index;
  slots = set c.next fresh c.slots;
  next = suc c.next;
}

inserted-IsEntry :
    (id : Text) (c : SharedCache) (j : Text) (n : ℕ)
    → lookup id c.index ≡ none
    → IsEntry c j n
    → IsEntry (inserted id c) j n
unfolding text_eq
inserted-IsEntry id c j n absent entry =
    (lookup-insert j id c.next c.index ∙ ground (arith, absent, entry.0), omega (arith, entry.1))

slot_kept :
    (c : SharedCache) (n : ℕ)
    → n < c.next
    → is_fresh (c.slots n) ≡ false
    → is_fresh (set c.next fresh c.slots n) ≡ false
unfolding nat_eq
slot_kept c n l h = let other : (n == c.next) ≡ false = ground (arith, l) in rw other h

bound :
    {c : SharedCache}
    → IsSound c
    → (j : Text) (n : ℕ) → (c.next ≡ n) ⊎ (lookup j c.index ≡ some n)
    → n < suc c.next
bound s j n (inl new) = omega (arith, new)
bound s j n (inr old) = omega (arith, s.bounded j n old)

inserted-IsSound :
    (id : Text) (c : SharedCache) → IsSound c → lookup id c.index ≡ none → IsSound (inserted id c)
inserted-IsSound id c s absent = record {
  distinct = s.distinct;
  started = λ j h.
      let (n, entry, old) = s.started j h in
      (n, inserted-IsEntry id c j n absent entry, slot_kept c n entry.1 old);
  bounded = λ j n e. bound s j n (elim (Bool-cases (j == id)) [
    | inl same ↦ inl (
        let k : some c.next ≡ some n = rw same at (sym (lookup-insert j id c.next c.index) ∙ e) in
        cc)
    | inr other ↦ inr (rw other at (sym (lookup-insert j id c.next c.index) ∙ e))
  ]);
  held = λ w j n e. inserted-IsEntry id c j n absent (s.held w j n e);
}

-- An entry that leaves its fresh state.
slot_set :
    (c : SharedCache) (n m : ℕ) (slot : Slot)
    → is_fresh slot ≡ false
    → is_fresh (c.slots m) ≡ false
    → is_fresh (set n slot c.slots m) ≡ false
unfolding nat_eq
slot_set c n m slot h k = elim (Bool-cases (m == n)) [
  | inl same ↦ rw same h
  | inr other ↦ rw other k
]

filled-IsSound :
    (n : ℕ) (slot : Slot) (c : SharedCache)
    → is_fresh slot ≡ false
    → IsSound c
    → IsSound (record c { slots = set n slot c.slots })
filled-IsSound n slot c h s = record {
  distinct = s.distinct;
  started = λ j k. let (m, entry, old) = s.started j k in (m, entry, slot_set c n m slot h old);
  bounded = s.bounded;
  held = s.held;
}

-- A fresh entry's id has not been loaded.
not_started :
    (c : SharedCache) (id : Text) (n : ℕ)
    → IsSound c
    → IsEntry c id n
    → c.slots n ≡ fresh
    → contains c.loads id ≡ false
not_started c id n s entry f = elim (Bool-cases (contains c.loads id)) [
  | inl there ↦
      let (m, other, old) = s.started id there in
      let same : n ≡ m = ground (arith, entry.0, other.0) in
      absurd
        (ground (arith, subst (λ k. is_fresh (c.slots k) ≡ false) (sym same) old, ap is_fresh f))
  | inr absent ↦ absent
]

started-IsSound :
    (c : SharedCache) (id : Text) (n : ℕ)
    → IsSound c
    → IsEntry c id n
    → c.slots n ≡ fresh
    → IsSound (record c { slots = set n running c.slots; loads = id ∷ c.loads })
unfolding nat_eq text_eq
started-IsSound c id n s entry f =
    let t = filled-IsSound n running c refl s in
    record {
      distinct = (not_started c id n s entry f, s.distinct);
      started = λ j h. elim (Bool-cases (j == id)) [
        | inl same ↦
            let e : id ≡ j = ground (arith, same) in
            (n, subst (λ i. IsEntry c i n) e entry, ground (arith))
        | inr other ↦ t.started j (ground (arith, other, h))
      ];
      bounded = s.bounded;
      held = s.held;
    }

own-IsEntry : (id : Text) (c : SharedCache) → IsEntry (inserted id c) id c.next
unfolding text_eq
own-IsEntry id c = (lookup-insert_self id c.next c.index, omega arith)

find_entry-IsSound :
    (w : ℕ) (id : Text) (o : Option ℕ) (c : SharedCache)
    → IsSound c
    → lookup id c.index ≡ o
    → IsSound (find_entry w id o c)
unfolding find_entry text_eq
find_entry-IsSound w id none c s e =
    enter-IsSound w (holding id c.next) (inserted id c) (inserted-IsSound id c s e) λ j n k.
      let (same, here) = holding-injective id j c.next n k in rw (← same, ← here) (own-IsEntry id c)
find_entry-IsSound w id (some m) c s e = enter-IsSound w (holding id m) c s λ j n k.
    let (same, here) = holding-injective id j m n k in rw (← same, ← here) (e, s.bounded id m e)

once-IsSound :
    (w : ℕ) (id : Text) (n : ℕ) (slot : Slot) (c : SharedCache)
    → IsSound c
    → IsEntry c id n
    → c.slots n ≡ slot
    → IsSound (once w id n slot c)
unfolding once
once-IsSound w id n fresh c s entry e =
    enter-IsSound w (loading id n) _ (started-IsSound c id n s entry e) (λ j m k. cc)
once-IsSound w id n running c s entry e = s
once-IsSound w id n (loaded a) c s entry e = enter-IsSound w (returned id a) c s (λ j m k. cc)

worker_step-IsSound :
    (w : ℕ) (answer : AlbumEntry) (p : Phase) (c : SharedCache)
    → IsSound c
    → c.phases w ≡ p
    → IsSound (worker_step w answer p c)
unfolding worker_step loader_done
worker_step-IsSound w answer (arrived id) c s e =
    find_entry-IsSound w id (lookup id c.index) c s refl
worker_step-IsSound w answer (holding id n) c s e =
    once-IsSound w id n (c.slots n) c s (s.held w id n e) refl
worker_step-IsSound w answer (loading id n) c s e =
    enter-IsSound w (returned id answer) _ (filled-IsSound n (loaded answer) c refl s) (λ j m k. cc)
worker_step-IsSound w answer (returned id entry) c s e = s

run_loads-IsSound :
    (turns : List (ℕ × AlbumEntry)) (c : SharedCache) → IsSound c → IsSound (run_loads turns c)
unfolding run_loads
run_loads-IsSound [] c s = s
run_loads-IsSound ((w, answer) ∷ turns) c s =
    run_loads-IsSound turns _ (worker_step-IsSound w answer (c.phases w) c s refl)

-- However the steps of the workers interleave, and whatever ids they ask for, no loader is started twice
-- for an id.
pub run_loads-IsOnce :
    (ids : ℕ → Text) (turns : List (ℕ × AlbumEntry))
    → Distinct (run_loads turns (at_start ids)).loads
unfolding lookup
run_loads-IsOnce ids turns =
    (run_loads-IsSound turns (at_start ids) (record {
      distinct = tt;
      started = λ id h. cc;
      bounded = λ id n h. absurd (ground (arith, h));
      held = λ w id n e. cc;
    })).distinct
