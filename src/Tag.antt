-- ===== src/Tag.antt =====
-- internal/tag/integrity.go and internal/tag/lrc.go: the check of a downloaded file, and the lyrics beside
-- it. The FLAC decoder is given by what it answers.
pub mod Integrity
use tidal_syncer.Shared.{
  ℕ, ◌+◌, ◌-◌, ◌%◌, ◌^◌, Bool, not, ◌&&◌, Option, none, some, List, [], ◌∷◌, ◌++◌, Text, codes,
  nat_eq, ◌==◌, ltb, length, take, if◌then◌else◌,
}
use tidal_syncer.Failure.{Error, truncated, Result, ok, err}
use tidal_syncer.Files.Path.{ext}

-- What `ParseNext` answers: a frame of that many samples, the end of the file, or another error.
pub data Turn : Type 0 where
  frame : ℕ → Turn
  at_end : Turn
  broken : Error → Turn

-- The loop over the frames, with its 64-bit sum; `none` while it still reads.
unfoldable pub decode : ℕ → List Turn → Option (Result ℕ)
decode decoded [] = none
decode decoded (frame size ∷ turns) = decode ((decoded + size) % 2 ^ 64) turns
decode decoded (at_end ∷ turns) = some (ok decoded)
decode decoded (broken e ∷ turns) = some (err e)

abbrev pub check_samples : ℕ → Result ℕ → Result (Unit {0})
check_samples want (err e) = err e
check_samples want (ok decoded) =
    if not (want == 0) && ltb decoded want then err (truncated ∷ []) else ok tt

abbrev pub checked : ℕ → Option (Result ℕ) → Option (Result (Unit {0}))
checked want none = none
checked want (some r) = some (check_samples want r)

-- The check, from what the opening of the file, its header and its frames answer.
unfoldable pub integrity_check :
    Result (Unit {0}) → Result ℕ → List Turn → Option (Result (Unit {0}))
unfolding decode
integrity_check (err e) header turns = some (err e)
integrity_check (ok u) (err e) turns = some (err e)
integrity_check (ok u) (ok want) turns = checked want (decode 0 turns)

unfoldable pub write_lrc : (Text → Text → Result (Unit {0})) → Text → Text → Result (Unit {0})
unfolding ext
write_lrc write_file audio_path lrc =
    write_file (take (length audio_path - length (ext audio_path)) audio_path ++ codes ".lrc") lrc
