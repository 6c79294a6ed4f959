-- ===== src/Manifest.antt =====
-- pkg/tidal/manifest/manifest.go: a playback manifest as the API sends it, and what `Parse` makes of
-- it. The decoders of base64, JSON and XML are not of this repository: each is an argument.
pub mod Mpd
pub mod Laws
use tidal_syncer.Shared.{
  Bool, List, [], ◌∷◌, Text, codes, text_eq, nat_eq, ◌==◌, not, Option, none, some, if◌then◌else◌,
}
use tidal_syncer.Failure.{encrypted, invalid_manifest, unknown_mime, Result, ok, err, ◌>>=◌}
use tidal_syncer.Manifest.Mpd.{Dash, MpdDocument, to_dash}

-- `MimeBTS` and `MimeDASH`
abbrev pub mime_bts : Text
mime_bts = codes "application/vnd.tidal.bts"

abbrev pub mime_dash : Text
mime_dash = codes "application/dash+xml"

-- `encryptionNone`
abbrev pub encryption_none : Text
encryption_none = codes "NONE"

pub record Bts : Type 0 where
  pub mime_type : Text
  pub urls : List Text

-- A manifest holds the one of the two that its kind tells.
pub data Manifest : Type 0 where
  kind_bts : Bts → Manifest
  kind_dash : Dash → Manifest

-- `btsPayload`
pub record BtsPayload : Type 0 where
  pub mime_type : Text
  pub encryption_type : Text
  pub urls : List Text

-- `base64.StdEncoding.DecodeString`, and `Unmarshal` of the two documents.
pub record Decoders : Type 0 where
  pub base64 : Text → Result Text
  pub json : Text → Result BtsPayload
  pub xml : Text → Result MpdDocument

abbrev pub bts_of : BtsPayload → List Text → Result Manifest
bts_of payload [] = err (invalid_manifest ∷ [])
bts_of payload (url ∷ urls) =
    ok (kind_bts (record { mime_type = payload.mime_type; urls = url ∷ urls }))

unfoldable pub check_bts : BtsPayload → Result Manifest
check_bts payload =
    if not (payload.encryption_type == encryption_none)
    then err (encrypted ∷ [])
    else bts_of payload payload.urls

module _ (decoders : Decoders) where
  unfoldable pub parse_bts : Text → Result Manifest
  unfolding check_bts
  parse_bts text = do raw ← decoders.base64 text; payload ← decoders.json raw; check_bts payload

  unfoldable pub parse_dash : Text → Result Manifest
  parse_dash text = do
    raw ← decoders.base64 text
    doc ← decoders.xml raw
    dash ← to_dash doc
    ok (kind_dash dash)

  unfoldable pub parse : Text → Text → Result Manifest
  unfolding parse_bts parse_dash
  parse mime_type text =
      if mime_type == mime_bts
      then parse_bts text
      else if mime_type == mime_dash
      then parse_dash text
      else err (unknown_mime ∷ [])
