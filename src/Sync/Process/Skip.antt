-- ===== src/Sync/Process/Skip.antt =====
-- What the next run decides about a track that this run has processed.
use tidal_syncer.Shared.{
  ℕ, suc, ◌≡◌, refl, ◌∙◌, ap, inl, inr, Bool, false, not, ◌&&◌, Option-cases, Option, none, some,
  Text, text_eq, leb, arith,
}
use tidal_syncer.Shared.Decimal.{itoa}
use tidal_syncer.Shared.Map.{lookup, lookup-insert_self}
use tidal_syncer.Failure.{Error, canceled, deadline_exceeded, is, ok}
use tidal_syncer.Tidal.Quality.{Quality, rank}
use tidal_syncer.Tidal.Dto.{Track}
use tidal_syncer.Config.Types.{Config}
use tidal_syncer.Store.Tracks as Tracks
use tidal_syncer.Store.Tracks.{Tracks, done, failed, get_track, mark_track, mark_failed, failed_row}
use tidal_syncer.Sync.PermanentFailure.{permanent_failure}
use tidal_syncer.Sync.Ports.{Ports, select_track, upsert_failed}
use tidal_syncer.Sync.Process.{
  Run, query, skip_row, should_skip, failed_record, unless_fault, process_track,
}
use tidal_syncer.Sync.Process.Outcome.{
  Fails, skipped_track, downloaded_track, failed_track, cancelled_track, process_track-Outcome,
}

lookup-mark_track :
    (now : ℕ) (row : Tracks.Track) (id : Text) (db : Tracks)
    → row.tidal_id ≡ id
    → lookup id (mark_track now row db) ≡ some (record row { updated_at = now })
unfolding mark_track
lookup-mark_track now row id db e = rw (← e) (lookup-insert_self _ _ db)

lookup-mark_failed :
    (now : ℕ) (row : Tracks.Track) (db : Tracks)
    → lookup row.tidal_id (mark_failed now row db)
      ≡ some (failed_row now row (lookup row.tidal_id db))
unfolding mark_failed
lookup-mark_failed now row db = lookup-insert_self _ _ db

-- The decision on a row that is there.
module _ (nfc : Text → Text) (ports : Ports) (cfg : Config) (retry_failed : Bool) where
  should_skip-row :
      (id : ℕ) (db : Tracks) (row : Tracks.Track)
      → ports.fault select_track ≡ none
      → lookup (itoa id) db ≡ some row
      → should_skip nfc ports cfg retry_failed id db
        ≡ ok (skip_row retry_failed cfg.quality.request row)
  unfolding should_skip get_track
  should_skip-row id db row f e = rw (f, query) (rw (e, get_track))

-- The row that a recorded failure leaves, whatever was there.
failed_row_fields :
    (now : ℕ) (tr : Tracks.Track) (o : Option Tracks.Track)
    → ((failed_row now tr o).status ≡ tr.status)
      × ((failed_row now tr o).permanent ≡ tr.permanent)
      × ((failed_row now tr o).requested_quality ≡ tr.requested_quality)
unfolding failed_row
failed_row_fields now tr none = (refl, refl, refl)
failed_row_fields now tr (some old) = (refl, refl, refl)

skip_row-failed :
    (retry' : Bool) (request : Quality) (row : Tracks.Track)
    → row.status ≡ failed
    → skip_row retry' request row
      ≡ (not retry' && (row.permanent && leb (rank request) (rank row.requested_quality)))
unfolding skip_row
skip_row-failed retry' request row h = rw (h, skip_row) (ground arith)

module _ (nfc : Text → Text) (ports : Ports) (cfg : Config) (retry_failed : Bool) (track : Track)
    (r : Run) where
  abbrev failure : Error → Tracks.Track
  failure cause = failed_record nfc ports cfg retry_failed track cause

  lookup-failure :
      (cause : Error) (db : Tracks)
      → ports.fault upsert_failed ≡ none
      → db
        ≡ unless_fault
            (ports.fault upsert_failed)
            r.tracks
            (mark_failed ports.now (failure cause) r.tracks)
      → lookup (itoa track.id) db
        ≡ some (failed_row ports.now (failure cause) (lookup (itoa track.id) r.tracks))
  unfolding failed_record
  lookup-failure cause db u a = rw a (rw u (lookup-mark_failed ports.now (failure cause) r.tracks))

  skip_failure :
      (cause : Error) (retry' : Bool) (request : Quality) (o : Option Tracks.Track)
      → skip_row retry' request (failed_row ports.now (failure cause) o)
        ≡ (not retry' && (permanent_failure cause && leb (rank request) (rank cfg.quality.request)))
  unfolding failed_record
  skip_failure cause retry' request o =
      let (status, permanent, tier) = failed_row_fields ports.now (failure cause) o in
      skip_row-failed retry' request (failed_row ports.now (failure cause) o) status
      ∙ rw (permanent, tier)

  keeps_file :
      (cause : Error) (old : Tracks.Track) (db : Tracks)
      → lookup (itoa track.id) r.tracks ≡ some old
      → db
        ≡ unless_fault
            (ports.fault upsert_failed)
            r.tracks
            (mark_failed ports.now (failure cause) r.tracks)
      → (row : Tracks.Track) × (lookup (itoa track.id) db ≡ some row)
        × (row.path ≡ old.path)
        × (row.obtained_quality ≡ old.obtained_quality)
        × (row.genre ≡ old.genre)
  unfolding failed_row
  keeps_file cause old db l a = elim (Option-cases (ports.fault upsert_failed)) [
    | inl works ↦ (
      failed_row ports.now (failure cause) (some old),
      lookup-failure cause db works a ∙ rw l,
      refl,
      refl,
      refl,
    )
    | inr (e, fails) ↦ (old, rw a (rw fails l), refl, refl, refl)
  ]

module _ (nfc : Text → Text) (ports : Ports) (cfg : Config) (retry_failed : Bool) (track : Track)
    (r : Run) where
  abbrev after : Run
  after = process_track nfc ports cfg retry_failed track r

  -- After a run has downloaded a track, a run that can read its row skips it exactly when it requests
  -- no higher tier; re-trying failures makes no difference.
  pub should_skip_after_download :
      (process_track nfc ports cfg retry_failed track r).downloaded ≡ suc r.downloaded
      → (ports' : Ports) (cfg' : Config) (retry' : Bool) → ports'.fault select_track ≡ none
      → should_skip nfc ports' cfg' retry' track.id
          (process_track nfc ports cfg retry_failed track r).tracks
        ≡ ok (leb (rank cfg'.quality.request) (rank cfg.quality.request))
  unfolding skip_row
  should_skip_after_download h ports' cfg' retry' f =
      elim (process_track-Outcome nfc ports cfg retry_failed track r) [
        | skipped_track a b c e g ↦ absurd (omega arith)
        | downloaded_track row k g o i a b c e ↦
            should_skip-row nfc ports' cfg' retry' track.id after.tracks
              (record row { updated_at = ports.now }) f
              (rw a (lookup-mark_track ports.now row (itoa track.id) r.tracks i.id))
            ∙ rw (i.status, i.tier)
        | failed_track cause g i a b c e ↦ absurd (omega arith)
        | cancelled_track cause g i a b c e ↦ absurd (omega arith)
      ]

  -- After a run has counted a track as failed and could record it, there is the error with which the
  -- track failed, no cancellation, and a run that can read the row skips the track exactly when that
  -- error is permanent, it requests no higher tier, and it is not told to re-try failures.
  pub should_skip_after_failure :
      (process_track nfc ports cfg retry_failed track r).failed ≡ suc r.failed
      → ports.fault upsert_failed ≡ none
      → (ports' : Ports) (cfg' : Config) (retry' : Bool) → ports'.fault select_track ≡ none
      → (cause : Error) × Fails nfc ports cfg retry_failed track r cause
        × (is cause canceled ≡ false)
        × (is cause deadline_exceeded ≡ false)
        × (should_skip nfc ports' cfg' retry' track.id
              (process_track nfc ports cfg retry_failed track r).tracks
            ≡ ok (
                not retry'
                && (permanent_failure cause
                    && leb (rank cfg'.quality.request) (rank cfg.quality.request))))
  should_skip_after_failure h u ports' cfg' retry' fine =
      elim (process_track-Outcome nfc ports cfg retry_failed track r) [
        | skipped_track a b c e g ↦ absurd (omega arith)
        | downloaded_track row k g o i a b c e ↦ absurd (omega arith)
        | failed_track cause g i a b c e ↦ (
          cause,
          g,
          i.0,
          i.1,
          should_skip-row nfc ports' cfg' retry' track.id after.tracks _ fine
                (lookup-failure nfc ports cfg retry_failed track r cause after.tracks u a)
              ∙ ap ok (
                  skip_failure nfc ports cfg retry_failed track r cause retry' cfg'.quality.request
                    _),
        )
        | cancelled_track cause g i a b c e ↦ absurd (omega arith)
      ]

  -- Unless the track is downloaded anew, the file that its row names stays named: its path, its
  -- obtained tier and its genre.
  pub process_track-keeps_file :
      (old : Tracks.Track)
      → lookup (itoa track.id) r.tracks ≡ some old
      → (process_track nfc ports cfg retry_failed track r).downloaded ≡ r.downloaded
      → (row : Tracks.Track) × (lookup
            (itoa track.id)
            (process_track nfc ports cfg retry_failed track r).tracks
          ≡ some row)
        × (row.path ≡ old.path)
        × (row.obtained_quality ≡ old.obtained_quality)
        × (row.genre ≡ old.genre)
  process_track-keeps_file old l h =
      elim (process_track-Outcome nfc ports cfg retry_failed track r) [
        | skipped_track a b c e g ↦ (old, rw a l, refl, refl, refl)
        | downloaded_track row k g o i a b c e ↦ absurd (omega arith)
        | failed_track cause g i a b c e ↦
            keeps_file nfc ports cfg retry_failed track r cause old after.tracks l a
        | cancelled_track cause g i a b c e ↦ (old, rw a l, refl, refl, refl)
      ]
