-- ===== src/Download/Atomic/PartName.antt =====
-- The name of the part file.
use mathlib.Core.List.{append_assoc}
use tidal_syncer.Shared.{
  true, ◌+◌, ◌≤◌, Text, ◌∷◌, ◌++◌, length, length-append, take, length-take_le, ltb, Bool-cases,
  inl, inr, arith, ◌≡◌, ap, sym,
}
use tidal_syncer.Files.Path.{FilePath, dir}
use tidal_syncer.Download.Sweep.{part_suffix, base, is_stale}
use tidal_syncer.Download.Sweep.View.{is_stale-suffix}
use tidal_syncer.Download.Atomic.{part_name, part_path, max_component_bytes}

affixed : Text → Text → Text
affixed cut random = b'.' ∷ (cut ++ b'.' ∷ (random ++ part_suffix))

length-affixed :
    (cut random : Text)
    → (length (affixed cut random) ≡ length cut + length random + 7)
      × (front : Text) × (affixed cut random ≡ front ++ part_suffix)
unfolding affixed
length-affixed cut random = (
  omega
      (arith, length-append cut (b'.' ∷ (random ++ part_suffix)), length-append random part_suffix),
  b'.' ∷ (cut ++ b'.' ∷ random),
  ap (λ s. b'.' ∷ s) (sym (append_assoc cut (b'.' ∷ random) part_suffix)),
)

-- With a random field of at most 16 bytes, the name of the part file is no longer than a name may be,
-- whatever the name of the destination; and it ends in the suffix that the sweep looks for.
pub length-part_name_le :
    (name random : Text)
    → length random ≤ 16
    → (length (part_name name random) ≤ max_component_bytes)
      × (front : Text) × (part_name name random ≡ front ++ part_suffix)
unfolding part_name affixed
length-part_name_le name random h = elim (Bool-cases (ltb 231 (length name))) [
  | inl long ↦
      let (n, front, ends) = length-affixed (take 231 name) random in
      rw long (omega (arith, n, length-take_le 231 name), front, ends)
  | inr short ↦
      let (n, front, ends) = length-affixed name random in
      rw short (ground (arith, n, short), front, ends)
]

-- A part file is one that the sweep removes.
pub part_path-is_stale : (dest : FilePath) (random : Text) → is_stale (part_path dest random) ≡ true
unfolding part_path part_name affixed
part_path-is_stale dest random = elim (Bool-cases (ltb 231 (length (base dest)))) [
  | inl long ↦
      let (n, front, ends) = length-affixed (take 231 (base dest)) random in
      rw (long, ends) (is_stale-suffix dest (dir dest).parts front)
  | inr short ↦
      let (n, front, ends) = length-affixed (base dest) random in
      rw (short, ends) (is_stale-suffix dest (dir dest).parts front)
]
