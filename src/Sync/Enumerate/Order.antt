-- ===== src/Sync/Enumerate/Order.antt =====
-- The enumerated tracks come in strictly ascending id order, each id once.
use mathlib.Core.Path.{subst}
use tidal_syncer.Shared.{
  ℕ, ◌<◌, ◌≡◌, ◌≢◌, Bool, true, false, Bool-cases, inl, inr, List, [], ◌∷◌, map, Text, nat_eq,
  contains, All, arith,
}
use tidal_syncer.Shared.Map.{Map, keys}
use tidal_syncer.Shared.Sort.{sort, insert_sorted}
use tidal_syncer.Failure.{Result, ok, err}
use tidal_syncer.Tidal.Dto.{Track}
use tidal_syncer.Config.Types.{Config}
use tidal_syncer.Store.Tracks.{Tracks}
use tidal_syncer.Store.Collection.{Collections}
use tidal_syncer.Sync.Ports.{Ports}
use tidal_syncer.Sync.Enumerate.Keyed.{IsKeyed, enumerate_into-KeepsKeyed}
use tidal_syncer.Sync.Enumerate.{Desired, value_of, by_id, sorted_tracks, answer, enumerate}

-- Every id is smaller than all that come after it.
abbrev pub IsAscending : List Track → Type 0
IsAscending [] = Unit
IsAscending (t ∷ ts) = All (λ u. t.id < u.id) ts × IsAscending ts

All-insert_sorted :
    (P : Track → Type 0) (t : Track) (ts : List Track)
    → P t
    → All P ts
    → All P (insert_sorted by_id t ts)
unfolding insert_sorted
All-insert_sorted P t [] p q = (p, tt)
All-insert_sorted P t (u ∷ us) p q = elim (Bool-cases (by_id t u)) [
  | inl e ↦ rw e (p, q)
  | inr e ↦ rw e (q.0, All-insert_sorted P t us p q.1)
]

All-sort : (P : Track → Type 0) (ts : List Track) → All P ts → All P (sort by_id ts)
unfolding sort
All-sort P [] p = tt
All-sort P (t ∷ ts) p = All-insert_sorted P t (sort by_id ts) p.0 (All-sort P ts p.1)

All-below : (a b : ℕ) (ts : List Track) → a < b → All (λ u. b < u.id) ts → All (λ u. a < u.id) ts
All-below a b [] l p = tt
All-below a b (t ∷ ts) l p = (omega (arith, l, p.0), All-below a b ts l p.1)

lt_of_le : (t u : Track) → by_id t u ≡ true → u.id ≢ t.id → t.id < u.id
lt_of_le t u e n = ground arith

gt_of_not_le : (t u : Track) → by_id t u ≡ false → u.id < t.id
gt_of_not_le t u e = ground arith

insert_sorted-IsAscending :
    (t : Track) (ts : List Track)
    → All (λ u. u.id ≢ t.id) ts
    → IsAscending ts
    → IsAscending (insert_sorted by_id t ts)
unfolding insert_sorted
insert_sorted-IsAscending t [] n a = (tt, tt)
insert_sorted-IsAscending t (u ∷ us) n a = elim (Bool-cases (by_id t u)) [
  | inl e ↦ rw e (let l = lt_of_le t u e n.0 in ((l, All-below t.id u.id us l a.0), a))
  | inr e ↦ rw e (
    All-insert_sorted (λ v. u.id < v.id) t us (gt_of_not_le t u e) a.0,
    insert_sorted-IsAscending t us n.1 a.1,
  )
]

values-IsFree :
    (k : ℕ) (m : Map ℕ Track)
    → contains (keys m) k ≡ false
    → IsKeyed m
    → All (λ u. u.id ≢ k) (map value_of m)
unfolding keys
values-IsFree k [] n h = tt
values-IsFree k ((j, t) ∷ m) n h =
    (ground (arith, n, h.0), values-IsFree k m (ground (arith, n)) h.2)

sorted_tracks-IsAscending : (m : Map ℕ Track) → IsKeyed m → IsAscending (sorted_tracks m)
unfolding sorted_tracks sort
sorted_tracks-IsAscending [] h = tt
sorted_tracks-IsAscending ((k, t) ∷ m) h =
    insert_sorted-IsAscending t (sort by_id (map value_of m))
      (All-sort (λ u. u.id ≢ t.id) (map value_of m) (rw h.0 (values-IsFree k m h.1 h.2)))
      (sorted_tracks-IsAscending m h.2)

tracks_of : Result (List Track × Map ℕ Text) → List Track
tracks_of (ok r) = r.0
tracks_of (err e) = []

answer-IsAscending :
    (r : Result (Unit {0})) (d : Desired) (ts : List Track) (dates : Map ℕ Text)
    → IsKeyed d.dst
    → answer r d ≡ ok (ts, dates)
    → IsAscending ts
unfolding answer tracks_of
answer-IsAscending (ok u) d ts dates h e =
    subst (λ o. IsAscending (tracks_of o)) e (sorted_tracks-IsAscending d.dst h)
answer-IsAscending (err x) d ts dates h e = absurd (ground arith)

-- The tracks that `Enumerate` returns come in strictly ascending order of their ids, hence each
-- track once, whatever the favorites, the collections and the cache hold and whichever scope is
-- configured.
pub enumerate-IsAscending :
    (nfc : Text → Text) (ports : Ports) (cfg : Config) (retry_failed : Bool) (tracks : Tracks)
    (collections : Collections) (ts : List Track) (dates : Map ℕ Text)
    → (enumerate nfc ports cfg retry_failed tracks collections).0 ≡ ok (ts, dates)
    → IsAscending ts
unfolding enumerate
enumerate-IsAscending nfc ports cfg retry_failed tracks collections ts dates e =
    answer-IsAscending _ _ ts dates
      ((enumerate_into-KeepsKeyed nfc ports cfg retry_failed tracks).at
        (record { dst = []; dates = []; collections = collections }) tt)
      e
