-- ===== src/Sync/AlbumCache/Race.antt =====
-- internal/sync/cache.go, `load`, by several workers at once. The mutex makes the search for an entry,
-- with its insertion, one step; `sync.Once` lets the first worker that comes run the loader, and the
-- others wait until it is done. Entries are kept by pointer, here a number.
pub mod Once
use tidal_syncer.Shared.{
  ℕ, suc, Option, none, some, List, [], ◌∷◌, Text, text_eq, nat_eq, ◌==◌, if◌then◌else◌,
}
use tidal_syncer.Shared.Map.{Map, lookup, insert}
use tidal_syncer.Sync.AlbumCache.{AlbumEntry}

-- An entry whose loader has not started, runs, or has returned.
pub data Slot : Type 0 where
  fresh running : Slot
  loaded : AlbumEntry → Slot

-- Where a worker is: before the search, with an entry, in the loader, or behind the call.
pub data Phase : Type 0 where
  arrived : Text → Phase
  holding : Text → ℕ → Phase
  loading : Text → ℕ → Phase
  returned : Text → AlbumEntry → Phase

-- The map, the entries with the number of the next one, the workers, and the ids for which a loader was
-- started, the last first.
pub record SharedCache : Type 0 where
  pub index : Map Text ℕ
  pub slots : ℕ → Slot
  pub next : ℕ
  pub phases : ℕ → Phase
  pub loads : List Text

abbrev pub set : {A : Type 0} → ℕ → A → (ℕ → A) → ℕ → A
set k a f j = if j == k then a else f j

abbrev pub enter : ℕ → Phase → SharedCache → SharedCache
enter w p c = record c { phases = set w p c.phases }

-- The step under the mutex.
unfoldable pub find_entry : ℕ → Text → Option ℕ → SharedCache → SharedCache
find_entry w id (some n) c = enter w (holding id n) c
find_entry w id none c = enter w (holding id c.next) (record c {
  index = insert id c.next c.index;
  slots = set c.next fresh c.slots;
  next = suc c.next;
})

-- `once.Do`; a worker that has to wait stays where it is.
unfoldable pub once : ℕ → Text → ℕ → Slot → SharedCache → SharedCache
once w id n fresh c =
    enter w (loading id n) (record c { slots = set n running c.slots; loads = id ∷ c.loads })
once w id n running c = c
once w id n (loaded entry) c = enter w (returned id entry) c

-- The end of a loader with its answer.
unfoldable pub loader_done : ℕ → Text → ℕ → AlbumEntry → SharedCache → SharedCache
loader_done w id n answer c =
    enter w (returned id answer) (record c { slots = set n (loaded answer) c.slots })

unfoldable pub worker_step : ℕ → AlbumEntry → Phase → SharedCache → SharedCache
unfolding find_entry once loader_done
worker_step w answer (arrived id) c = find_entry w id (lookup id c.index) c
worker_step w answer (holding id n) c = once w id n (c.slots n) c
worker_step w answer (loading id n) c = loader_done w id n answer c
worker_step w answer (returned id entry) c = c

-- A schedule names the worker that takes the next step, with the answer of its loader if that ends.
unfoldable pub run_loads : List (ℕ × AlbumEntry) → SharedCache → SharedCache
unfolding worker_step
run_loads [] c = c
run_loads ((w, answer) ∷ turns) c = run_loads turns (worker_step w answer (c.phases w) c)

-- Every worker before its call.
abbrev pub at_start : (ℕ → Text) → SharedCache
at_start ids = record {
  index = [];
  slots = λ n. fresh;
  next = 0;
  phases = λ w. arrived (ids w);
  loads = [];
}
