-- ===== src/Store/Open/Wal.antt =====
-- The loop over the pings ends.
use mathlib.Core.Path.{subst}
use tidal_syncer.Shared.{
  ℕ, zero, suc, ◌+◌, ◌*◌, ◌<◌, ◌≤◌, true, false, Bool-cases, not, ◌||◌, Option, none, some, inl,
  inr, ◌⊎◌, ltb, arith, ◌≡◌, refl,
}
use tidal_syncer.Failure.{Error, sqlite_busy, is, Result, ok, err}
use tidal_syncer.Store.Open.{
  Pings, busy_timeout, retry_delay, is_busy, pinged, establish_wal_from, establish_wal,
}

-- The ping found the database busy, and the deadline had not passed behind it.
abbrev pub IsRetried : Pings → ℕ → ℕ → Type 0
IsRetried pings deadline k =
    (e : Error) × (pings.ping k ≡ some e) × (is e sqlite_busy ≡ true) × (pings.now k ≤ deadline)

-- All pings before the `k`th.
abbrev pub AllRetried : Pings → ℕ → ℕ → Type 0
AllRetried pings deadline zero = Unit
AllRetried pings deadline (suc k) = IsRetried pings deadline k × AllRetried pings deadline k

-- The result of the loop: that of the first ping that was not retried, which was answered, or failed with
-- an error that is not busy or came behind the deadline.
pub data Ends (pings : Pings) (deadline : ℕ) : Result (Unit {0}) → Type 0 where
  connected :
      (k : ℕ) → AllRetried pings deadline k → pings.ping k ≡ none → Ends pings deadline (ok tt)
  gave_up :
      (k : ℕ) (e : Error)
      → AllRetried pings deadline k
      → pings.ping k ≡ some e
      → (is e sqlite_busy ≡ false) ⊎ (deadline < pings.now k)
      → Ends pings deadline (err e)

module _ (pings : Pings) (deadline : ℕ) where
  Ended : Option (Result (Unit {0})) → Type 0
  Ended o = (answer : Result (Unit {0})) × (o ≡ some answer) × Ends pings deadline answer

  over_because :
      (e : Error) (k : ℕ)
      → (not (is_busy e) || ltb deadline (pings.now k)) ≡ true
      → (is e sqlite_busy ≡ false) ⊎ (deadline < pings.now k)
  over_because e k h = elim (Bool-cases (is e sqlite_busy)) [
    | inl busy ↦ inr (ground (arith, busy, h))
    | inr other ↦ inl other
  ]

  pinged-Ended :
      (o : Option Error) (k : ℕ) (rest : Option (Result (Unit {0})))
      → AllRetried pings deadline k
      → pings.ping k ≡ o
      → (deadline < pings.now k) ⊎ (AllRetried pings deadline (suc k) → Ended rest)
      → Ended (pinged pings deadline o k rest)
  unfolding pinged Ended
  pinged-Ended none k rest below p h = (ok tt, refl, connected k below p)
  pinged-Ended (some e) k rest below p h =
      elim (Bool-cases (not (is_busy e) || ltb deadline (pings.now k))) [
        | inl over ↦ rw over (err e, refl, gave_up k e below p (over_because e k over))
        | inr again ↦ rw again (elim h [
          | inl late ↦ absurd (ground (arith, late, again))
          | inr r ↦ r ((e, p, ground (arith, again), ground (arith, again)), below)
        ])
      ]

  establish_wal_from-Ended :
      (fuel k : ℕ)
      → AllRetried pings deadline k
      → deadline < pings.now (k + fuel)
      → Ended (establish_wal_from pings deadline (suc fuel) k)
  unfolding establish_wal_from
  establish_wal_from-Ended zero k below late =
      pinged-Ended (pings.ping k) k none below refl
        (inl (subst (λ n. deadline < pings.now n) (omega arith) late))
  establish_wal_from-Ended (suc fuel) k below late =
      pinged-Ended (pings.ping k) k (establish_wal_from pings deadline (suc fuel) (suc k)) below
        refl
        (inr λ next.
          establish_wal_from-Ended fuel (suc k) next
            (subst (λ n. deadline < pings.now n) (omega arith) late))

later :
    (now : ℕ → ℕ) (start k : ℕ)
    → start ≤ now 0
    → ((j : ℕ) → now j + retry_delay ≤ now (suc j))
    → start + retry_delay * k ≤ now k
later now start zero h step = omega (arith, h)
later now start (suc k) h step = omega (arith, step k, later now start k h step)

-- If each round takes at least the delay, as the sleep in it makes sure, the loop ends within 252 rounds,
-- with the first ping that is answered or fails for good, all before it having found the database busy
-- before the deadline; a failure for good is an error that is not SQLITE_BUSY or comes behind the
-- deadline.
pub establish_wal-Ends :
    (pings : Pings) (start : ℕ)
    → start ≤ pings.now 0
    → ((j : ℕ) → pings.now j + retry_delay ≤ pings.now (suc j))
    → (answer : Result (Unit {0})) × (establish_wal pings start 252 ≡ some answer)
      × Ends pings (start + busy_timeout) answer
unfolding establish_wal Ended
establish_wal-Ends pings start first step =
    establish_wal_from-Ended pings (start + busy_timeout) 251 0 tt
      (omega (arith, later pings.now start 251 first step))
