-- ===== src/Namer/Sanitize/Safety.antt =====
-- What a sanitized component is made of.
use tidal_syncer.Shared.{
  ℕ, zero, suc, ◌≤◌, ◌≡◌, ◌≢◌, refl, false, ◌&&◌, ◌||◌, [], ◌∷◌, map, ltb, leb, Bool-cases, inl,
  inr, Text, text_eq, nat_eq, ◌==◌, contains, length, length-take_le, All, All-append, All-take,
  All-drop, arith,
}
use tidal_syncer.Namer.Utf8.{encode, encode_rune}
use tidal_syncer.Namer.Sanitize.{
  is_control, sanitize_rune, illegal_chars, trailing_cutset, keep_head, trim_right, stem_of,
  is_reserved, max_reserved_len, suffix_if_reserved, truncate_to_bytes, back_off,
  max_component_bytes, or_placeholder, finish, sanitize,
}

-- No control character and none of the characters that a path component must not hold.
abbrev pub IsClean : ℕ → Type 0
IsClean c = (is_control c ≡ false) × (contains illegal_chars c ≡ false)

-- Of bytes: those above the ASCII range belong to longer sequences.
abbrev pub IsCleanByte : ℕ → Type 0
IsCleanByte b = (ltb b 0x80 && is_control b ≡ false) × (contains illegal_chars b ≡ false)

pub sanitize_rune-IsClean : (r : ℕ) → IsClean (sanitize_rune r)
unfolding sanitize_rune nat_eq is_control
sanitize_rune-IsClean r = elim (Bool-cases (is_control r || contains illegal_chars r)) [
  | inl bad ↦ rw bad (refl, refl)
  | inr good ↦ rw good (ground arith)
]

map-sanitize_rune-IsClean : (s : Text) → All IsClean (map sanitize_rune s)
map-sanitize_rune-IsClean [] = tt
map-sanitize_rune-IsClean (r ∷ s) = (sanitize_rune-IsClean r, map-sanitize_rune-IsClean s)

-- A byte above the ASCII range is none of the illegal characters.
high_byte : (b : ℕ) → 0x80 ≤ b → IsCleanByte b
high_byte b h = ground arith

encode_rune-IsCleanByte : (c : ℕ) → IsClean c → All IsCleanByte (encode_rune c)
unfolding encode_rune
encode_rune-IsCleanByte c h = elim (Bool-cases (ltb c 0x80)) [
  | inl one ↦ rw one ((ground (arith, h.0), h.1), tt)
  | inr more ↦ rw more (elim (Bool-cases (ltb c 0x800)) [
    | inl two ↦ rw two (high_byte _ (omega arith), (high_byte _ (omega arith), tt))
    | inr longer ↦ rw longer (elim (Bool-cases (ltb c 0x10000)) [
      | inl three ↦
          rw three (
            high_byte _ (omega arith),
            (high_byte _ (omega arith), (high_byte _ (omega arith), tt)),
          )
      | inr four ↦ rw four (
        high_byte _ (omega arith),
        (high_byte _ (omega arith), (high_byte _ (omega arith), (high_byte _ (omega arith), tt))),
      )
    ])
  ])
]

encode-IsCleanByte : (s : Text) → All IsClean s → All IsCleanByte (encode s)
unfolding encode
encode-IsCleanByte [] h = tt
encode-IsCleanByte (c ∷ s) h =
    All-append IsCleanByte (encode_rune c) (encode s) (encode_rune-IsCleanByte c h.0)
      (encode-IsCleanByte s h.1)

module _ (P : ℕ → Type 0) where
  keep_head-All : (c : ℕ) (s : Text) → P c → All P s → All P (keep_head c s)
  unfolding keep_head
  keep_head-All c [] p h = elim (Bool-cases (contains trailing_cutset c)) [
    | inl cut ↦ rw cut tt
    | inr kept ↦ rw kept (p, tt)
  ]
  keep_head-All c (d ∷ s) p h = (p, h)

  trim_right-All : (s : Text) → All P s → All P (trim_right s)
  unfolding trim_right
  trim_right-All [] h = tt
  trim_right-All (c ∷ s) h = keep_head-All c (trim_right s) h.0 (trim_right-All s h.1)

  stem_of-All : (s : Text) → All P s → All P (stem_of s)
  unfolding stem_of
  stem_of-All [] h = tt
  stem_of-All (c ∷ s) h = elim (Bool-cases (c == b'.')) [
    | inl dot ↦ rw dot tt
    | inr other ↦ rw other (h.0, stem_of-All s h.1)
  ]

  suffix_if_reserved-All : (s : Text) → P b'_' → All P s → All P (suffix_if_reserved s)
  unfolding suffix_if_reserved
  suffix_if_reserved-All s p h =
      elim (Bool-cases (length (stem_of s) == 0 || ltb max_reserved_len (length (stem_of s)))) [
        | inl skip ↦ rw skip h
        | inr checked ↦ rw checked (elim (Bool-cases (is_reserved (stem_of s))) [
          | inl reserved ↦ rw reserved (
              All-append P (stem_of s) _ (stem_of-All s h) (p, All-drop P (length (stem_of s)) s h))
          | inr free ↦ rw free h
        ])
      ]

  truncate_to_bytes-All : (s : Text) (n : ℕ) → All P s → All P (truncate_to_bytes s n)
  unfolding truncate_to_bytes
  truncate_to_bytes-All s n h = elim (Bool-cases (leb (length s) n)) [
    | inl fits ↦ rw fits h
    | inr long ↦ rw long (All-take P (back_off s n) s h)
  ]

  or_placeholder-All : (s : Text) → P b'_' → All P s → All P (or_placeholder s)
  unfolding or_placeholder
  or_placeholder-All [] p h = (p, tt)
  or_placeholder-All (c ∷ s) p h = h

  finish-All : (s : Text) → P b'_' → All P s → All P (finish s)
  unfolding finish
  finish-All s p h = or_placeholder-All _ p (
      trim_right-All _ (
        truncate_to_bytes-All _ max_component_bytes
          (suffix_if_reserved-All _ p (trim_right-All s h))))

-- Every byte of a sanitized component is clean, if normalisation makes no clean text unclean.
pub sanitize-IsCleanByte :
    (nfc : Text → Text)
    → ((s : Text) → All IsClean s → All IsClean (nfc s))
    → (component : Text) → All IsCleanByte (sanitize nfc component)
unfolding sanitize nat_eq is_control
sanitize-IsCleanByte nfc keeps component =
    finish-All IsCleanByte _ (refl, refl)
      (encode-IsCleanByte _ (keeps _ (map-sanitize_rune-IsClean component)))

back_off-le : (s : Text) (n : ℕ) → back_off s n ≤ n
unfolding back_off
back_off-le s zero = omega arith
back_off-le s (suc n) = ground (arith, back_off-le s n)

length-truncate_to_bytes : (s : Text) (n : ℕ) → length (truncate_to_bytes s n) ≤ n
unfolding truncate_to_bytes
length-truncate_to_bytes s n = ground (arith, back_off-le s n, length-take_le (back_off s n) s)

length-keep_head : (c : ℕ) (s : Text) → length (keep_head c s) ≤ suc (length s)
unfolding keep_head
length-keep_head c [] = ground arith
length-keep_head c (d ∷ s) = omega arith

length-trim_right : (s : Text) → length (trim_right s) ≤ length s
unfolding trim_right
length-trim_right [] = omega arith
length-trim_right (c ∷ s) = omega (arith, length-keep_head c (trim_right s), length-trim_right s)

-- The last byte, 0 for none.
abbrev pub last_or_zero : Text → ℕ
last_or_zero [] = 0
last_or_zero (c ∷ []) = c
last_or_zero (c ∷ d ∷ s) = last_or_zero (d ∷ s)

last-keep_head :
    (c : ℕ) (s : Text)
    → contains trailing_cutset (last_or_zero s) ≡ false
    → contains trailing_cutset (last_or_zero (keep_head c s)) ≡ false
unfolding keep_head
last-keep_head c [] h = ground arith
last-keep_head c (d ∷ s) h = h

last-trim_right : (s : Text) → contains trailing_cutset (last_or_zero (trim_right s)) ≡ false
unfolding trim_right nat_eq
last-trim_right [] = refl
last-trim_right (c ∷ s) = last-keep_head c (trim_right s) (last-trim_right s)

-- What `finish` guarantees whatever the bytes are.
pub record IsComponent (s : Text) : Type 0 where
  pub nonempty : s ≢ []
  pub short : length s ≤ max_component_bytes
  pub ends : contains trailing_cutset (last_or_zero s) ≡ false

or_placeholder-IsComponent :
    (s : Text)
    → length s ≤ max_component_bytes
    → contains trailing_cutset (last_or_zero s) ≡ false
    → IsComponent (or_placeholder s)
unfolding or_placeholder nat_eq
or_placeholder-IsComponent [] h k = record { nonempty = λ e. cc; short = omega arith; ends = refl }
or_placeholder-IsComponent (c ∷ s) h k = record { nonempty = λ e. cc; short = h; ends = k }

-- A sanitized component is not empty, has at most 255 bytes, and does not end in a dot or a space.
pub sanitize-IsComponent :
    (nfc : Text → Text) (component : Text) → IsComponent (sanitize nfc component)
unfolding sanitize finish
sanitize-IsComponent nfc component =
    let cut =
      truncate_to_bytes
        (suffix_if_reserved (trim_right (encode (nfc (map sanitize_rune component)))))
        max_component_bytes in
    or_placeholder-IsComponent (trim_right cut)
      (omega (
        arith,
        length-trim_right cut,
        length-truncate_to_bytes
            (suffix_if_reserved (trim_right (encode (nfc (map sanitize_rune component)))))
            max_component_bytes,
      ))
      (last-trim_right cut)
