-- ===== src/Download/Atomic/Commit.antt =====
-- The destination of `writeAtomic` is replaced by the whole content or left as it was.
use tidal_syncer.Shared.{true, false, Option, none, some, [], Text, ◌≡◌, refl, ◌∙◌, ap}
use tidal_syncer.Shared.Map.{insert, erase}
use tidal_syncer.Failure.{Error, Result, ok, err}
use tidal_syncer.Files.Path.{FilePath, path_eq}
use tidal_syncer.Download.Stream.{classify_io_err}
use tidal_syncer.Download.Sweep.{Files, is_stale}
use tidal_syncer.Download.Sweep.View.{View, view, put, view-erase, view-insert, view-insert_stale}
use tidal_syncer.Download.Atomic.{
  Producer, Disk, part_path, removed, sync_dir, renamed, synced, produced, chmodded, created,
  write_atomic,
}
use tidal_syncer.Download.Atomic.PartName.{part_path-is_stale}

-- The abstract write: all of the bytes, with or without an error of the flush of the directory behind
-- it, or nothing and an error.
pub data Write (bytes : Result Text) (dest : FilePath) (before : View)
    : Result (Unit {0}) → View → Type 0 where
  complete : (b : Text) → bytes ≡ ok b → Write bytes dest before (ok tt) (put dest b before)
  not_flushed :
      (b : Text) (e : Error) → bytes ≡ ok b → Write bytes dest before (err e) (put dest b before)
  nothing : (e : Error) → Write bytes dest before (err e) before

pub view-removed :
    (o : Option Error) (part : FilePath) (files : Files)
    → is_stale part ≡ true
    → view (removed o part files) ≡ view files
unfolding removed
view-removed none part files h = view-erase part files h
view-removed (some e) part files h = refl

module _ (disk : Disk) (dest : FilePath) (visible : is_stale dest ≡ false) (part : FilePath)
    (temporary : is_stale part ≡ true) (before : View) (produce : Producer) where
  Answers : Result Text → Result (Unit {0}) × Files → Type 0
  Answers bytes (answer, files) = Write bytes dest before answer (view files)

  flushed-Write :
      (bytes : Text) (files : Files) (answer : Result (Unit {0}))
      → view files ≡ put dest bytes before
      → Write (ok bytes) dest before answer (view files)
  flushed-Write bytes files (ok u) e = rw e (complete bytes refl)
  flushed-Write bytes files (err x) e = rw e (not_flushed bytes x refl)

  nothing-Write :
      (bytes : Result Text) (e : Error) (files : Files)
      → view files ≡ before
      → Write bytes dest before (err e) (view files)
  nothing-Write bytes e files h = rw h (nothing e)

  renamed-Write :
      (bytes : Text) (o : Option Error) (files : Files)
      → view files ≡ before
      → Answers (ok bytes) (renamed disk dest part bytes o files)
  unfolding renamed Answers
  renamed-Write bytes (some e) files h =
      nothing-Write (ok bytes) e _ (view-removed disk.remove part files temporary ∙ h)
  renamed-Write bytes none files h =
      flushed-Write bytes (insert dest bytes (erase part files)) (sync_dir disk) (
        view-insert dest bytes (erase part files) visible
        ∙ ap (put dest bytes) (view-erase part files temporary ∙ h))

  inserted :
      (bytes : Text) (files : Files) → view files ≡ before → view (insert part bytes files) ≡ before
  inserted bytes files h = view-insert_stale part bytes files temporary ∙ h

  synced-Write :
      (bytes : Text) (o : Option Error) (files : Files)
      → view files ≡ before
      → Answers (ok bytes) (synced disk dest part bytes o files)
  unfolding synced Answers
  synced-Write bytes (some e) files h =
      nothing-Write (ok bytes) (classify_io_err e) _
        (view-removed disk.remove part files temporary ∙ h)
  synced-Write bytes none files h = renamed-Write bytes disk.rename files h

  produced-Write :
      (r : Result Text) (files : Files)
      → view files ≡ before
      → Answers r (produced disk dest part (r, files))
  unfolding produced Answers
  produced-Write (err e) files h = nothing-Write (err e) e _ (
      view-removed disk.remove part (insert part disk.partial files) temporary
      ∙ inserted disk.partial files h)
  produced-Write (ok bytes) files h =
      synced-Write bytes disk.sync (insert part bytes files) (inserted bytes files h)

  chmodded-Write :
      (o : Option Error) (files : Files)
      → view files ≡ before
      → view (produce files).1 ≡ view files
      → Answers (produce files).0 (chmodded disk dest part produce o files)
  unfolding chmodded Answers
  chmodded-Write (some e) files h k =
      nothing-Write (produce files).0 e _ (view-removed disk.remove part files temporary ∙ h)
  chmodded-Write none files h k = produced-Write (produce files).0 (produce files).1 (k ∙ h)

  created-Write :
      (o : Option Error) (files : Files)
      → view files ≡ before
      → ((f : Files) → view (produce f).1 ≡ view f)
      → Answers (produce (insert part [] files)).0 (created disk dest part produce o files)
  unfolding created Answers
  created-Write (some e) files h keeps = nothing-Write _ e files h
  created-Write none files h keeps =
      chmodded-Write disk.chmod (insert part [] files) (inserted [] files h)
        (keeps (insert part [] files))

-- `writeAtomic` is an atomic write for every answer of the system: behind it the destination, if its
-- name is not that of a part file, holds all that the producer returned, or else every file but part
-- files is as before and there is an error. The producer may itself use part files only.
pub write_atomic-Write :
    (disk : Disk) (dest : FilePath) (produce : Producer) (files : Files)
    → is_stale dest ≡ false
    → ((f : Files) → view (produce f).1 ≡ view f)
    → let (answer, after) = write_atomic disk dest produce files in
      Write
        (produce (insert (part_path dest disk.random) [] files)).0
        dest
        (view files)
        answer
        (view after)
unfolding write_atomic Answers
write_atomic-Write disk dest produce files visible keeps =
    created-Write disk dest visible (part_path dest disk.random)
      (part_path-is_stale dest disk.random) (view files) produce disk.create files refl keeps
