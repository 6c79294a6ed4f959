-- ===== src/Download/Fetch/Whole.antt =====
-- What a download leaves.
use mathlib.Core.Path.{subst}
use tidal_syncer.Shared.{
  true, false, Bool-cases, Option, inl, inr, none, some, List, [], ◌++◌, Text, text_eq, codes, ◌==◌,
  ◌≡◌, refl, ◌∙◌, ap, sym,
}
use tidal_syncer.Shared.Map.{insert}
use tidal_syncer.Failure.{Error, encrypted, is, Result, ok, err}
use tidal_syncer.Files.Path.{FilePath, path_eq, dir}
use tidal_syncer.Tidal.Quality.{Quality}
use tidal_syncer.Manifest.{Manifest, kind_bts, kind_dash, Decoders, parse}
use tidal_syncer.Manifest.Mpd.{Dash, segment_urls}
use tidal_syncer.Download.Band.{Playback, Provider, fetch_manifest}
use tidal_syncer.Download.Stream.{Http, assemble_segments}
use tidal_syncer.Download.Stream.Laws.{
  AreBodies, concat, assemble_segments-AreBodies, stream_urls-AreBodies,
}
use tidal_syncer.Download.Sweep.{Files, is_stale}
use tidal_syncer.Download.Sweep.View.{View, view, put, is_stale-suffix, view-insert_stale}
use tidal_syncer.Download.Atomic.{Producer, Disk, removed, write_atomic}
use tidal_syncer.Download.Atomic.Commit.{
  Write, complete, not_flushed, nothing, view-removed, write_atomic-Write,
}
use tidal_syncer.Download.Fetch.{
  Demuxer, scratch_path, failed_demux, demuxed, ffmpeg_demux, closed, assembled, scratched,
  demux_dash, dash_producer, producer_for, with_quality, written, parsed, resolved, download,
}

scratch_path-is_stale :
    (dest : FilePath) (random : Text) → is_stale (scratch_path dest random) ≡ true
unfolding scratch_path
scratch_path-is_stale dest random =
    is_stale-suffix dest (dir dest).parts (codes ".tidal-dash-" ++ random)

-- The bytes of a manifest's stream: one whole body for each of its URLs, in their order, or the audio
-- that ffmpeg takes from a container that consists of one whole body for each of its segments.
pub data Content (http : Http) (mux : Demuxer) : Manifest → Text → Type 0 where
  direct :
      (mime_type : Text) (urls bodies : List Text)
      → AreBodies http urls bodies
      → Content http mux (kind_bts (record { mime_type = mime_type; urls = urls })) (concat bodies)
  segmented :
      (d : Dash) (urls bodies : List Text) (bytes : Text)
      → segment_urls d ≡ some urls
      → AreBodies http urls bodies
      → mux.demux (concat bodies) ≡ ok bytes
      → Content http mux (kind_dash d) bytes

module _ (http : Http) (mux : Demuxer) (dest : FilePath) (urls : List Text) where
  scratch : FilePath
  scratch = scratch_path dest mux.random

  -- What the producer returns is what ffmpeg makes of all segments, and only the scratch file changes.
  Demuxes : Files → Result Text × Files → Type 0
  Demuxes before (err e, files) = view files ≡ view before
  Demuxes before (ok flac, files) =
      (view files ≡ view before)
      × (raw : Text) × (assemble_segments http urls [] ≡ ok raw)
      × (mux.demux raw ≡ ok flac)

  hidden : is_stale scratch ≡ true
  unfolding scratch
  hidden = scratch_path-is_stale dest mux.random

  failed-Demuxes :
      (c : Option Error) (e : Error) (before files : Files)
      → view files ≡ view before
      → Demuxes before (failed_demux mux c e, files)
  unfolding failed_demux Demuxes
  failed-Demuxes none e before files h = h
  failed-Demuxes (some c) e before files h = h

  demuxed-Demuxes :
      (raw : Text) (r : Result Text) (before files : Files)
      → assemble_segments http urls [] ≡ ok raw
      → mux.demux raw ≡ r
      → view files ≡ view before
      → Demuxes before (demuxed mux r, files)
  unfolding demuxed Demuxes
  demuxed-Demuxes raw (ok flac) before files a e h = (h, raw, a, e)
  demuxed-Demuxes raw (err x) before files a e h = failed-Demuxes mux.context x before files h

  kept : (bytes : Text) (files : Files) → view (insert scratch bytes files) ≡ view files
  kept bytes files = view-insert_stale scratch bytes files hidden

  dropped : (files : Files) → view (removed mux.remove scratch files) ≡ view files
  dropped files = view-removed mux.remove scratch files hidden

  closed-Demuxes :
      (raw : Text) (o : Option Error) (files : Files)
      → assemble_segments http urls [] ≡ ok raw
      → Demuxes files (closed mux http dest urls scratch raw o (insert scratch raw files))
  unfolding closed ffmpeg_demux Demuxes
  closed-Demuxes raw (some e) files a = dropped (insert scratch raw files) ∙ kept raw files
  closed-Demuxes raw none files a =
      demuxed-Demuxes raw (mux.demux raw) files _ a refl
        (dropped (insert scratch raw files) ∙ kept raw files)

  assembled-Demuxes :
      (r : Result Text) (files : Files)
      → assemble_segments http urls [] ≡ r
      → Demuxes files (assembled mux http dest urls scratch r files)
  unfolding assembled Demuxes
  assembled-Demuxes (err e) files a =
      dropped (insert scratch mux.partial files) ∙ kept mux.partial files
  assembled-Demuxes (ok raw) files a = closed-Demuxes raw mux.close files a

  scratched-Demuxes :
      (o : Option Error) (files : Files)
      → Demuxes files (scratched mux http dest urls scratch o files)
  unfolding scratched Demuxes
  scratched-Demuxes (some e) files = refl
  scratched-Demuxes none files = assembled-Demuxes (assemble_segments http urls []) files refl

  demux_dash-Demuxes : (files : Files) → Demuxes files (demux_dash mux http dest urls files)
  unfolding demux_dash scratch Demuxes
  demux_dash-Demuxes files = elim (Bool-cases (mux.ffmpeg_path == [])) [
    | inl missing ↦ rw missing refl
    | inr there ↦ rw there (scratched-Demuxes mux.create files)
  ]

  Demuxes-view :
      (before : Files) (r : Result Text × Files) → Demuxes before r → view r.1 ≡ view before
  unfolding Demuxes
  Demuxes-view before (err e, files) h = h
  Demuxes-view before (ok flac, files) h = h.0

  Demuxes-Content :
      (d : Dash) (before : Files) (r : Result Text × Files) (bytes : Text)
      → segment_urls d ≡ some urls
      → Demuxes before r
      → r.0 ≡ ok bytes
      → Content http mux (kind_dash d) bytes
  unfolding Demuxes
  Demuxes-Content d before (err e, files) bytes s h k = cc
  Demuxes-Content d before (ok flac, files) bytes s h k =
      let (same, raw, a, m) = h in
      let (bodies, all, are) = assemble_segments-AreBodies http urls [] raw a in
      segmented d urls bodies bytes s are (ap mux.demux (sym all) ∙ m ∙ k)

module _ (http : Http) (mux : Demuxer) (dest : FilePath) where
  -- A producer that changes no visible file and returns the content of the manifest.
  Produces : Manifest → Option Producer → Type 0
  Produces m none = (d : Dash) × (m ≡ kind_dash d) × (segment_urls d ≡ none)
  Produces m (some produce) =
      ((f : Files) → view (produce f).1 ≡ view f)
      × ((f : Files) (bytes : Text) → (produce f).0 ≡ ok bytes → Content http mux m bytes)

  dash_producer-Produces :
      (d : Dash) (o : Option (List Text))
      → segment_urls d ≡ o
      → Produces (kind_dash d) (dash_producer http mux dest o)
  unfolding Produces dash_producer
  dash_producer-Produces d none e = (d, refl, e)
  dash_producer-Produces d (some urls) e = (
    λ f. Demuxes-view http mux dest urls f _ (demux_dash-Demuxes http mux dest urls f),
    λ f bytes k.
        Demuxes-Content http mux dest urls d f _ bytes e (demux_dash-Demuxes http mux dest urls f)
          k,
  )

  producer_for-Produces : (m : Manifest) → Produces m (producer_for http mux dest m)
  unfolding Produces producer_for
  producer_for-Produces (kind_bts b) = (
    λ f. refl,
    λ f bytes k.
        let (bodies, all, are) = stream_urls-AreBodies http b.urls [] bytes k in
        subst (Content http mux (kind_bts b)) (sym all) (direct b.mime_type b.urls bodies are),
  )
  producer_for-Produces (kind_dash d) = dash_producer-Produces d (segment_urls d) refl

module _ (http : Http) (mux : Demuxer) (dest : FilePath) (provider : Provider)
    (request floor : Quality) (decoders : Decoders) where
  -- A download that is done in one step: the whole content of the granted playback, even if the answer is
  -- an error, or nothing.
  pub data Fetch (before : View) : Result Quality → View → Type 0 where
    stored :
        (playback : Playback) (m : Manifest) (bytes : Text)
        → fetch_manifest provider request floor ≡ ok playback
        → parse decoders playback.mime_type playback.manifest ≡ ok m
        → Content http mux m bytes
        → Fetch before (ok playback.granted) (put dest bytes before)
    stored_not_flushed :
        (playback : Playback) (m : Manifest) (bytes : Text) (e : Error)
        → fetch_manifest provider request floor ≡ ok playback
        → parse decoders playback.mime_type playback.manifest ≡ ok m
        → Content http mux m bytes
        → Fetch before (err e) (put dest bytes before)
    left : (e : Error) → Fetch before (err e) before

  -- One such step, or a panic, where the granted playback is a DASH document whose segments make
  -- `SegmentURLs` panic.
  abbrev pub Fetches : Files → Option (Result Quality × Files) → Type 0
  Fetches before none =
      (playback : Playback) × (d : Dash) × (fetch_manifest provider request floor ≡ ok playback)
      × (parse decoders playback.mime_type playback.manifest ≡ ok (kind_dash d))
      × (segment_urls d ≡ none)
  Fetches before (some (answer, after)) = Fetch (view before) answer (view after)

  module _ (disk : Disk) (before : Files) (visible : is_stale dest ≡ false) where
    with_quality-Fetch :
        (playback : Playback) (m : Manifest) (r : Result Text) (answer : Result (Unit {0}))
        (after : View) (files : Files)
        → fetch_manifest provider request floor ≡ ok playback
        → parse decoders playback.mime_type playback.manifest ≡ ok m
        → ((bytes : Text) → r ≡ ok bytes → Content http mux m bytes)
        → Write r dest (view before) answer after
        → Fetch
            (view before)
            (with_quality http mux dest provider request floor decoders disk playback.granted
              (answer, files)).0
            after
    unfolding with_quality
    with_quality-Fetch playback m r answer after files f p c (complete b e) =
        stored playback m b f p (c b e)
    with_quality-Fetch playback m r answer after files f p c (not_flushed b x e) =
        stored_not_flushed playback m b x f p (c b e)
    with_quality-Fetch playback m r answer after files f p c (nothing x) = left x

    files-with_quality :
        (q : Quality) (r : Result (Unit {0}) × Files)
        → (with_quality http mux dest provider request floor decoders disk q r).1 ≡ r.1
    unfolding with_quality
    files-with_quality q (ok u, files) = refl
    files-with_quality q (err e, files) = refl

    written-Fetches :
        (playback : Playback) (m : Manifest) (o : Option Producer)
        → fetch_manifest provider request floor ≡ ok playback
        → parse decoders playback.mime_type playback.manifest ≡ ok m
        → Produces http mux dest m o
        → Fetches before
            (written http mux dest provider request floor decoders disk playback.granted before o)
    unfolding Produces written
    written-Fetches playback m none f p h =
        let (d, e, none_of) = h in (playback, d, f, p ∙ ap ok e, none_of)
    written-Fetches playback m (some produce) f p h =
        let r : Result (Unit {0}) × Files = write_atomic disk dest produce before in
        rw (files-with_quality playback.granted r) (
          with_quality-Fetch playback m _ r.0 (view r.1) r.1 f p (h.1 _)
            (write_atomic-Write disk dest produce before visible h.0))

    parsed-Fetches :
        (playback : Playback) (r : Result Manifest)
        → fetch_manifest provider request floor ≡ ok playback
        → parse decoders playback.mime_type playback.manifest ≡ r
        → Fetches before
            (parsed http mux dest provider request floor decoders disk playback.granted before r)
    unfolding parsed
    parsed-Fetches playback (ok m) f p =
        written-Fetches playback m (producer_for http mux dest m) f p
          (producer_for-Produces http mux dest m)
    parsed-Fetches playback (err e) f p = elim (Bool-cases (is e encrypted)) [
      | inl drm ↦ rw drm (left _)
      | inr other ↦ rw other (left e)
    ]

    resolved-Fetches :
        (r : Result Playback)
        → fetch_manifest provider request floor ≡ r
        → Fetches before (resolved http mux dest provider request floor decoders disk before r)
    unfolding resolved
    resolved-Fetches (err e) f = left e
    resolved-Fetches (ok playback) f = parsed-Fetches playback _ f refl

pub download_refines :
    (http : Http) (mux : Demuxer) (dest : FilePath) (provider : Provider) (request floor : Quality)
    (decoders : Decoders) (disk : Disk) (before : Files)
    → is_stale dest ≡ false
    → Fetches http mux dest provider request floor decoders before
        (download http mux dest provider request floor decoders disk before)
unfolding download
download_refines http mux dest provider request floor decoders disk before visible =
    resolved-Fetches http mux dest provider request floor decoders disk before visible
      (fetch_manifest provider request floor) refl
