-- ===== src/Sync/Process/Outcome.antt =====
-- What the pipeline of one track does to the table and to the counters.
use tidal_syncer.Shared.{
  ℕ, suc, ◌+◌, ◌≡◌, ◌≢◌, refl, ◌⊎◌, inl, inr, Bool, true, false, Bool-cases, Option, none, some,
  Text, text_eq, arith,
}
use tidal_syncer.Shared.Decimal.{itoa}
use tidal_syncer.Shared.Map.{lookup, lookup-insert}
use tidal_syncer.Failure.{Error, canceled, deadline_exceeded, is, Result, ok, err}
use tidal_syncer.Tidal.Dto.{Track, Album}
use tidal_syncer.Config.Types.{Config}
use tidal_syncer.Store.Tracks as Tracks
use tidal_syncer.Store.Tracks.{Tracks, done, failed, get_track, mark_track, mark_failed, failed_row}
use tidal_syncer.Sync.Ports.{Ports, upsert_track, upsert_failed}
use tidal_syncer.Sync.AlbumCache.{AlbumCache, AlbumEntry}
use tidal_syncer.Sync.Process.{
  Run, should_skip, fetch_track, fetch_with, done_row, failed_record, is_cancellation, unless_fault,
  record_failure, record_done, finish_track, resolve_album, download_track, process_answer,
  process_track,
}

-- The tracks that the counters have seen.
abbrev pub total : Run → ℕ
total r = r.downloaded + r.skipped + r.failed

lookup-mark_track_ne :
    (now : ℕ) (row : Tracks.Track) (db : Tracks) (j : Text)
    → j ≢ row.tidal_id
    → lookup j (mark_track now row db) ≡ lookup j db
unfolding mark_track
lookup-mark_track_ne now row db j ne = rw lookup-insert (ground (arith, ne))

lookup-mark_failed_ne :
    (now : ℕ) (row : Tracks.Track) (db : Tracks) (j : Text)
    → j ≢ row.tidal_id
    → lookup j (mark_failed now row db) ≡ lookup j db
unfolding mark_failed
lookup-mark_failed_ne now row db j ne = rw lookup-insert (ground (arith, ne))

-- Every row but that of `id` is as before.
abbrev pub Kept : Text → Tracks → Tracks → Type 0
Kept id db db' = (j : Text) → j ≢ id → lookup j db' ≡ lookup j db

unless_fault-Kept :
    (o : Option Error) (id : Text) (old new : Tracks)
    → Kept id old new
    → Kept id old (unless_fault o old new)
unless_fault-Kept none id old new k = k
unless_fault-Kept (some e) id old new k = λ j ne. refl

-- The row that a successful download records.
pub record IsDone (cfg : Config) (track : Track) (row : Tracks.Track) : Type 0 where
  pub id : row.tidal_id ≡ itoa track.id
  pub status : row.status ≡ done
  pub tier : row.requested_quality ≡ cfg.quality.request

module _ (nfc : Text → Text) (ports : Ports) (cfg : Config) (retry_failed : Bool) where
  record_failure-Kept :
      (track : Track) (cause : Error) (r : Run)
      → Kept
          (itoa track.id)
          r.tracks
          (record_failure nfc ports cfg retry_failed track cause r).tracks
  unfolding record_failure
  record_failure-Kept track cause r = elim (Bool-cases (is_cancellation cause)) [
    | inl stop ↦ rw stop (λ j ne. refl)
    | inr go ↦ rw go (
        unless_fault-Kept (ports.fault upsert_failed) (itoa track.id) r.tracks _ (λ j ne.
          lookup-mark_failed_ne ports.now (failed_record nfc ports cfg retry_failed track cause)
            r.tracks j ne))
  ]

  fetch_track-IsDone :
      (track : Track) (album : Album) (cover : Text) (row : Tracks.Track)
      → fetch_track nfc ports cfg retry_failed track album cover ≡ ok row
      → IsDone cfg track row
  unfolding fetch_track done_row
  fetch_track-IsDone track album cover row h = ground arith

  fetch_with-IsDone :
      (track : Track) (entry : AlbumEntry) (row : Tracks.Track)
      → fetch_with nfc ports cfg retry_failed track entry ≡ ok row
      → IsDone cfg track row
  fetch_with-IsDone track (ok (album, cover)) row h = fetch_track-IsDone track album cover row h
  fetch_with-IsDone track (err e) row h = cc

  -- What the downloads of the track give: the row that is to be recorded, or an error.
  abbrev pub fetched : Track → Run → Result Tracks.Track
  fetched track r =
      fetch_with nfc ports cfg retry_failed track
        (resolve_album nfc ports cfg retry_failed track r.albums).0

  -- The error with which the track fails: that of reading its row, of the download, or of recording it.
  pub data Fails (track : Track) (r : Run) : Error → Type 0 where
    unread :
        (e : Error)
        → should_skip nfc ports cfg retry_failed track.id r.tracks ≡ err e
        → Fails track r e
    not_fetched :
        (e : Error)
        → should_skip nfc ports cfg retry_failed track.id r.tracks ≡ ok false
        → fetched track r ≡ err e
        → Fails track r e
    unrecorded :
        (e : Error) (row : Tracks.Track)
        → should_skip nfc ports cfg retry_failed track.id r.tracks ≡ ok false
        → fetched track r ≡ ok row
        → ports.fault upsert_track ≡ some e
        → Fails track r e

  -- The context was cancelled, or its deadline has passed.
  abbrev pub IsCancelled : Error → Type 0
  IsCancelled cause = (is cause canceled ≡ true) ⊎ (is cause deadline_exceeded ≡ true)

  -- What one track does to a run: each outcome moves exactly its own counter, and only a download
  -- and a recorded failure write to the table, each its one statement.
  pub data Outcome (track : Track) (r r' : Run) : Type 0 where
    skipped_track :
        r'.tracks ≡ r.tracks
        → r'.downloaded ≡ r.downloaded
        → r'.skipped ≡ suc r.skipped
        → r'.failed ≡ r.failed
        → should_skip nfc ports cfg retry_failed track.id r.tracks ≡ ok true
        → Outcome track r r'
    downloaded_track :
        (row : Tracks.Track)
        → should_skip nfc ports cfg retry_failed track.id r.tracks ≡ ok false
        → fetched track r ≡ ok row
        → ports.fault upsert_track ≡ none
        → IsDone cfg track row
        → r'.tracks ≡ mark_track ports.now row r.tracks
        → r'.downloaded ≡ suc r.downloaded
        → r'.skipped ≡ r.skipped
        → r'.failed ≡ r.failed
        → Outcome track r r'
    failed_track :
        (cause : Error)
        → Fails track r cause
        → (is cause canceled ≡ false) × (is cause deadline_exceeded ≡ false)
        → r'.tracks
          ≡ unless_fault (ports.fault upsert_failed) r.tracks (
              mark_failed ports.now (failed_record nfc ports cfg retry_failed track cause) r.tracks)
        → r'.downloaded ≡ r.downloaded
        → r'.skipped ≡ r.skipped
        → r'.failed ≡ suc r.failed
        → Outcome track r r'
    cancelled_track :
        (cause : Error)
        → Fails track r cause
        → IsCancelled cause
        → r'.tracks ≡ r.tracks
        → r'.downloaded ≡ r.downloaded
        → r'.skipped ≡ r.skipped
        → r'.failed ≡ r.failed
        → Outcome track r r'

  is_cancellation-true : (cause : Error) → is_cancellation cause ≡ true → IsCancelled cause
  unfolding is_cancellation
  is_cancellation-true cause h = elim (Bool-cases (is cause canceled)) [
    | inl stop ↦ inl stop
    | inr go ↦ inr (ground (arith, go, h))
  ]

  is_cancellation-false :
      (cause : Error)
      → is_cancellation cause ≡ false
      → (is cause canceled ≡ false) × (is cause deadline_exceeded ≡ false)
  unfolding is_cancellation
  is_cancellation-false cause h = (ground (arith, h), ground (arith, h))

  -- The album cache, which a download may fill, is no part of the outcome.
  record_failure-Outcome :
      (track : Track) (cause : Error) (r : Run) (albums : AlbumCache)
      → Fails track r cause
      → Outcome track r
          (record_failure nfc ports cfg retry_failed track cause (record r { albums = albums }))
  unfolding record_failure
  record_failure-Outcome track cause r albums f = elim (Bool-cases (is_cancellation cause)) [
    | inl stop ↦
        cancelled_track cause f (is_cancellation-true cause stop) (rw stop) (rw stop) (rw stop)
          (rw stop)
    | inr go ↦
        failed_track cause f (is_cancellation-false cause go) (rw go) (rw go) (rw go)
          (rw go (omega arith))
  ]

  record_done-Outcome :
      (track : Track) (o : Option Error) (row : Tracks.Track) (r : Run) (albums : AlbumCache)
      → should_skip nfc ports cfg retry_failed track.id r.tracks ≡ ok false
      → fetched track r ≡ ok row
      → ports.fault upsert_track ≡ o
      → IsDone cfg track row
      → Outcome track r
          (record_done nfc ports cfg retry_failed track o row (record r { albums = albums }))
  record_done-Outcome track none row r albums s f o h =
      downloaded_track row s f o h refl (omega arith) refl refl
  record_done-Outcome track (some e) row r albums s f o h =
      record_failure-Outcome track e r albums (unrecorded e row s f o)

  finish_track-Outcome :
      (track : Track) (result : Result Tracks.Track) (r : Run) (albums : AlbumCache)
      → should_skip nfc ports cfg retry_failed track.id r.tracks ≡ ok false
      → fetched track r ≡ result
      → Outcome track r
          (finish_track nfc ports cfg retry_failed track result (record r { albums = albums }))
  finish_track-Outcome track (ok row) r albums s f =
      record_done-Outcome track (ports.fault upsert_track) row r albums s f refl
        (fetch_with-IsDone track _ row f)
  finish_track-Outcome track (err e) r albums s f =
      record_failure-Outcome track e r albums (not_fetched e s f)

  download_track-Outcome :
      (track : Track) (r : Run)
      → should_skip nfc ports cfg retry_failed track.id r.tracks ≡ ok false
      → Outcome track r (download_track nfc ports cfg retry_failed track r)
  unfolding download_track
  download_track-Outcome track r s =
      finish_track-Outcome track _ r (resolve_album nfc ports cfg retry_failed track r.albums).1 s
        refl

  process_answer-Outcome :
      (track : Track) (answer : Result Bool) (r : Run)
      → should_skip nfc ports cfg retry_failed track.id r.tracks ≡ answer
      → Outcome track r (process_answer nfc ports cfg retry_failed track answer r)
  unfolding process_answer
  process_answer-Outcome track (ok true) r h = skipped_track refl refl (omega arith) refl h
  process_answer-Outcome track (ok false) r h = download_track-Outcome track r h
  process_answer-Outcome track (err e) r h = record_failure-Outcome track e r r.albums (unread e h)

  -- Processing a track always ends in one of four ways: it is skipped, where the decision says so; it
  -- is downloaded, where the decision, the download and the statement went well, and a done row with
  -- the requested tier is upserted; or its row cannot be read, the download fails or the done row
  -- cannot be recorded, and then the failure of just that cause is counted and upserted, unless that
  -- statement fails too, if the cause is neither a cancellation nor a deadline, and otherwise nothing is
  -- counted or written. Each way leaves the counters and the table exactly as the outcome says.
  pub process_track-Outcome :
      (track : Track) (r : Run) → Outcome track r (process_track nfc ports cfg retry_failed track r)
  unfolding process_track
  process_track-Outcome track r =
      process_answer-Outcome track (should_skip nfc ports cfg retry_failed track.id r.tracks) r refl

  -- Processing a track counts it once, unless it is cancelled; then the table is as before.
  pub total-process_track :
      (track : Track) (r : Run)
      → (total (process_track nfc ports cfg retry_failed track r) ≡ suc (total r))
        ⊎ ((total (process_track nfc ports cfg retry_failed track r) ≡ total r)
            × ((process_track nfc ports cfg retry_failed track r).tracks ≡ r.tracks))
  total-process_track track r = elim (process_track-Outcome track r) [
    | skipped_track a b c e g ↦ inl (omega arith)
    | downloaded_track row k f o h a b c e ↦ inl (omega arith)
    | failed_track cause f h a b c e ↦ inl (omega arith)
    | cancelled_track cause f h a b c e ↦ inr (omega arith, a)
  ]

  process_track-Kept :
      (track : Track) (r : Run)
      → Kept (itoa track.id) r.tracks (process_track nfc ports cfg retry_failed track r).tracks
  process_track-Kept track r = elim (process_track-Outcome track r) [
    | skipped_track a b c e g ↦ rw a (λ j ne. refl)
    | downloaded_track row k f o h a b c e ↦
        rw a (λ j ne. lookup-mark_track_ne ports.now row r.tracks j (rw h.id ne))
    | failed_track cause f h a b c e ↦ rw a (
        unless_fault-Kept (ports.fault upsert_failed) (itoa track.id) r.tracks _ (λ j ne.
          unfold failed_record in
          lookup-mark_failed_ne ports.now (failed_record nfc ports cfg retry_failed track cause)
            r.tracks j ne))
    | cancelled_track cause f h a b c e ↦ rw a (λ j ne. refl)
  ]

  -- Processing a track leaves the rows of all other tracks alone.
  pub process_track-keeps_others :
      (track : Track) (r : Run) (j : Text)
      → j ≢ itoa track.id
      → lookup j (process_track nfc ports cfg retry_failed track r).tracks ≡ lookup j r.tracks
  process_track-keeps_others track r j ne = process_track-Kept track r j ne
