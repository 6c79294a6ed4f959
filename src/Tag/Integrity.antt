-- ===== src/Tag/Integrity.antt =====
-- Which files the check accepts.
use tidal_syncer.Shared.{
  ℕ, ◌+◌, ◌%◌, ◌^◌, ◌<◌, ◌≤◌, Bool, true, false, Bool-cases, not, ◌&&◌, some, List, [], ◌∷◌, nat_eq,
  ◌==◌, ltb, ◌⊎◌, inl, inr, ◌↔◌, arith, ◌≡◌, ◌≢◌, refl, ◌∙◌, ap,
}
use tidal_syncer.Failure.{ok}
use tidal_syncer.Tag.{Turn, frame, at_end, broken, decode, checked, integrity_check}

-- The samples of the frames in front of the end.
abbrev pub samples : List Turn → ℕ
samples [] = 0
samples (frame size ∷ turns) = size + samples turns
samples (at_end ∷ turns) = 0
samples (broken e ∷ turns) = 0

-- All frames up to the end decode.
abbrev pub is_complete : List Turn → Bool
is_complete [] = false
is_complete (frame size ∷ turns) = is_complete turns
is_complete (at_end ∷ turns) = true
is_complete (broken e ∷ turns) = false

small : (n : ℕ) → n < 2 ^ 64 → n % 2 ^ 64 ≡ n
small n h = omega (arith, h)

decode_complete :
    (decoded : ℕ) (turns : List Turn)
    → decoded + samples turns < 2 ^ 64
    → is_complete turns ≡ true
    → decode decoded turns ≡ some (ok (decoded + samples turns))
unfolding decode
decode_complete decoded [] h c = cc
decode_complete decoded (frame size ∷ turns) h c =
    ap (λ n. decode n turns) (small (decoded + size) (omega (arith, h)))
    ∙ decode_complete (decoded + size) turns (omega (arith, h)) c
    ∙ ap (λ n. some (ok n)) (omega arith)
decode_complete decoded (at_end ∷ turns) h c = ap (λ n. some (ok n)) (omega arith)
decode_complete decoded (broken e ∷ turns) h c = cc

decode_incomplete :
    (want decoded : ℕ) (turns : List Turn)
    → is_complete turns ≡ false
    → checked want (decode decoded turns) ≢ some (ok tt)
unfolding decode
decode_incomplete want decoded [] c = λ e. cc
decode_incomplete want decoded (frame size ∷ turns) c =
    decode_incomplete want ((decoded + size) % 2 ^ 64) turns c
decode_incomplete want decoded (at_end ∷ turns) c = cc
decode_incomplete want decoded (broken e ∷ turns) c = λ h. cc

accepts :
    (want decoded : ℕ)
    → (checked want (some (ok decoded)) ≡ some (ok tt)) ↔ (want ≡ 0 ⊎ want ≤ decoded)
unfolding nat_eq
accepts want decoded = elim (Bool-cases (not (want == 0) && ltb decoded want)) [
  | inl short ↦ (rw short (λ h. cc), λ h. absurd (ground (arith, short, h)))
  | inr long ↦ (λ h. ground (arith, long), λ h. rw long refl)
]

-- The check of a file that opens and has a header accepts it exactly if all its frames up to the end
-- decode and their samples, fewer than 2 ^ 64, are not fewer than the header says, if it says a number.
pub integrity_check-accepts :
    (want : ℕ) (turns : List Turn)
    → samples turns < 2 ^ 64
    → (integrity_check (ok tt) (ok want) turns ≡ some (ok tt))
      ↔ ((is_complete turns ≡ true) × (want ≡ 0 ⊎ want ≤ samples turns))
unfolding integrity_check
integrity_check-accepts want turns small_sum = elim (Bool-cases (is_complete turns)) [
  | inl whole ↦
      let run =
        decode_complete 0 turns (omega (arith, small_sum)) whole
        ∙ ap (λ n. some (ok n))
            (let zero_add : 0 + samples turns ≡ samples turns = omega arith in zero_add) in
      rw run (
        λ h. (whole, (accepts want (samples turns)).0 h),
        λ h. (accepts want (samples turns)).1 h.1,
      )
  | inr cut ↦ (λ h. absurd (decode_incomplete want 0 turns cut h), λ h. cc)
]
