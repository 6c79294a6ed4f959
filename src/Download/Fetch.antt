-- ===== src/Download/Fetch.antt =====
-- pkg/tidal/download/download.go, `Download` and `producerFor`, and dash.go, `demuxDASH`: from the
-- manifest of a track to its file.
pub mod Whole
use tidal_syncer.Shared.{
  Option, none, some, List, [], ◌∷◌, ◌++◌, Text, codes, text_eq, ◌==◌, if◌then◌else◌,
}
use tidal_syncer.Shared.Map.{insert}
use tidal_syncer.Failure.{Error, encrypted, encrypted_skip, ffmpeg_failed, is, Result, ok, err}
use tidal_syncer.Files.Path.{FilePath, path_eq}
use tidal_syncer.Tidal.Quality.{Quality}
use tidal_syncer.Manifest.{Manifest, kind_bts, kind_dash, Decoders, parse}
use tidal_syncer.Manifest.Mpd.{segment_urls}
use tidal_syncer.Download.Band.{Playback, Provider, fetch_manifest}
use tidal_syncer.Download.Stream.{Http, stream_urls, assemble_segments}
use tidal_syncer.Download.Sweep.{Files, part_suffix}
use tidal_syncer.Download.Atomic.{Producer, Disk, beside, removed, write_atomic}

-- ffmpeg, with what it makes of a container, and the context behind a run that failed; and the answers
-- of the calls for the scratch file. `partial` is what a failed assembly has left in it.
pub record Demuxer : Type 0 where
  pub ffmpeg_path : Text
  pub demux : Text → Result Text
  pub context : Option Error
  pub random : Text
  pub create : Option Error
  pub close : Option Error
  pub remove : Option Error
  pub partial : Text

unfoldable pub scratch_path : FilePath → Text → FilePath
scratch_path dest random = beside dest ((codes ".tidal-dash-" ++ random) ++ part_suffix)

module _ (mux : Demuxer) where
  failed_demux : Option Error → Error → Result Text
  failed_demux (some c) e = err c
  failed_demux none e = err (ffmpeg_failed ∷ e)

  demuxed : Result Text → Result Text
  unfolding failed_demux
  demuxed (ok flac) = ok flac
  demuxed (err e) = failed_demux mux.context e

  unfoldable pub ffmpeg_demux : Text → Result Text
  unfolding demuxed
  ffmpeg_demux container = demuxed (mux.demux container)

  module _ (http : Http) (dest : FilePath) (urls : List Text) where
    closed : FilePath → Text → Option Error → Files → Result Text × Files
    unfolding ffmpeg_demux removed
    closed scratch raw (some e) files = (err e, removed mux.remove scratch files)
    closed scratch raw none files = (ffmpeg_demux raw, removed mux.remove scratch files)

    assembled : FilePath → Result Text → Files → Result Text × Files
    unfolding closed
    assembled scratch (err e) files =
        (err e, removed mux.remove scratch (insert scratch mux.partial files))
    assembled scratch (ok raw) files = closed scratch raw mux.close (insert scratch raw files)

    scratched : FilePath → Option Error → Producer
    unfolding assembled assemble_segments
    scratched scratch (some e) files = (err e, files)
    scratched scratch none files = assembled scratch (assemble_segments http urls []) files

    unfoldable pub demux_dash : Producer
    unfolding scratched scratch_path
    demux_dash files =
        if mux.ffmpeg_path == []
        then (err (ffmpeg_failed ∷ []), files)
        else scratched (scratch_path dest mux.random) mux.create files

module _ (http : Http) (mux : Demuxer) (dest : FilePath) where
  dash_producer : Option (List Text) → Option Producer
  unfolding demux_dash
  dash_producer none = none
  dash_producer (some urls) = some (demux_dash mux http dest urls)

  -- `none` is the panic of `SegmentURLs`. A manifest is of one of the two kinds, so that the case of an
  -- unsupported kind does not arise.
  unfoldable pub producer_for : Manifest → Option Producer
  unfolding dash_producer stream_urls segment_urls
  producer_for (kind_bts b) = some λ files. (stream_urls http b.urls [], files)
  producer_for (kind_dash d) = dash_producer (segment_urls d)

  module _ (provider : Provider) (request floor : Quality) (decoders : Decoders) (disk : Disk) where
    with_quality : Quality → Result (Unit {0}) × Files → Result Quality × Files
    with_quality granted (ok u, files) = (ok granted, files)
    with_quality granted (err e, files) = (err e, files)

    written : Quality → Files → Option Producer → Option (Result Quality × Files)
    unfolding with_quality write_atomic
    written granted files none = none
    written granted files (some produce) =
        some (with_quality granted (write_atomic disk dest produce files))

    unfoldable pub parsed : Quality → Files → Result Manifest → Option (Result Quality × Files)
    unfolding written producer_for
    parsed granted files (ok m) = written granted files (producer_for m)
    parsed granted files (err e) =
        if is e encrypted
        then some (err (encrypted_skip ∷ encrypted ∷ []), files)
        else some (err e, files)

    resolved : Files → Result Playback → Option (Result Quality × Files)
    unfolding parsed
    resolved files (err e) = some (err e, files)
    resolved files (ok playback) =
        parsed playback.granted files (parse decoders playback.mime_type playback.manifest)

    -- `Download`; `none` if it panics.
    unfoldable pub download : Files → Option (Result Quality × Files)
    unfolding resolved fetch_manifest parse
    download files = resolved files (fetch_manifest provider request floor)
