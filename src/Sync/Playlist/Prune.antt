-- ===== src/Sync/Playlist/Prune.antt =====
-- Which files the pruning removes.
use tidal_syncer.Shared.{Bool, ◌&&◌, none, List, [], ◌∷◌, Text, if◌then◌else◌, arith, ◌≡◌}
use tidal_syncer.Shared.Map.{lookup}
use tidal_syncer.Files.Path.{FilePath, path_eq}
use tidal_syncer.Download.Sweep.{Files}
use tidal_syncer.Sync.Playlist.{Disk, is_orphan, removable, remove_all, prune_orphans}

lookup-remove_all :
    (goes : FilePath → Bool) (q : FilePath) (files : Files)
    → lookup q (remove_all goes files) ≡ (if goes q then none else lookup q files)
unfolding remove_all lookup path_eq
lookup-remove_all goes q [] = ground arith
lookup-remove_all goes q ((p, text) ∷ files) = ground (arith, lookup-remove_all goes q files)

-- If the directory can be read, the pruning removes exactly the files directly below it that have the
-- extension of a playlist, whose stem is not among those that are kept, and that can be removed.
pub lookup-prune_orphans :
    (disk : Disk) (folder : FilePath) (kept : List Text) (files : Files) (q : FilePath)
    → disk.read_dir ≡ none
    → lookup q (prune_orphans disk folder kept files)
      ≡ (if is_orphan folder kept q && removable disk q then none else lookup q files)
unfolding prune_orphans
lookup-prune_orphans disk folder kept files q h = rw h (lookup-remove_all _ q files)
