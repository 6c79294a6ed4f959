-- ===== src/Sync/AlbumCache.antt =====
-- internal/sync/cache.go: albums and covers by album id. `load` is one call that runs to its end before
-- the next one; Race has the steps of several calls at once.
pub mod Race
use tidal_syncer.Shared.{Option, none, some, [], Text, text_eq}
use tidal_syncer.Shared.Map.{Map, lookup, insert}
use tidal_syncer.Failure.{Result}
use tidal_syncer.Tidal.Dto.{Album}

-- An album with its cover, or the memoized error.
abbrev pub AlbumEntry : Type 0
AlbumEntry = Result (Album × Text)

pub record AlbumCache : Type 0 where
  pub entries : Map Text AlbumEntry

abbrev pub empty_cache : AlbumCache
empty_cache = record { entries = [] }

load_missing : Text → AlbumEntry → AlbumCache → Option AlbumEntry → AlbumEntry × AlbumCache
load_missing id loaded c (some entry) = (entry, c)
load_missing id loaded c none = (loaded, record { entries = insert id loaded c.entries })

-- `loaded` is what the loader returns where it runs.
unfoldable pub load : Text → AlbumEntry → AlbumCache → AlbumEntry × AlbumCache
unfolding load_missing
load id loaded c = load_missing id loaded c (lookup id c.entries)
