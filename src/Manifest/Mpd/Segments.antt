-- ===== src/Manifest/Mpd/Segments.antt =====
-- The URLs of the segments, for a media template with one placeholder.
use mathlib.Core.Path.{subst}
use mathlib.Core.List.{append_cancel_left, append_cancel_right}
use tidal_syncer.Shared.{
  ℕ, zero, suc, ◌+◌, ◌^◌, ◌<◌, ◌≢◌, false, some, List, [], ◌∷◌, ◌++◌, Text, nat_eq, ◌==◌, length,
  All, arith, ◌≡◌, refl, ◌∙◌, sym, ap, contains, text_eq,
}
use tidal_syncer.Store.Rows.{Distinct}
use tidal_syncer.Shared.Decimal.{itoa, itoa-injective}
use tidal_syncer.Manifest.Mpd.{
  Dash, add_int, itoa_int, has_prefix, replace_from, number_placeholder, numbered, media_urls,
  segment_urls,
}

abbrev pub HasNoDollar : Text → Type 0
HasNoDollar s = All (λ c. (c == b'$') ≡ false) s

replace_from-HasNoDollar :
    (new s t : Text)
    → HasNoDollar s
    → replace_from number_placeholder new 0 (s ++ t) ≡ s ++ replace_from number_placeholder new 0 t
unfolding replace_from has_prefix nat_eq
replace_from-HasNoDollar new [] t h = refl
replace_from-HasNoDollar new (c ∷ s) t h = ground (arith, h.0, replace_from-HasNoDollar new s t h.1)

replace_from-nothing : (new s : Text) → HasNoDollar s → replace_from number_placeholder new 0 s ≡ s
unfolding replace_from has_prefix nat_eq
replace_from-nothing new [] h = refl
replace_from-nothing new (c ∷ s) h = ground (arith, h.0, replace_from-nothing new s h.1)

replace_from-once :
    (new post : Text)
    → replace_from number_placeholder new 0 (number_placeholder ++ post)
      ≡ new ++ replace_from number_placeholder new 0 post
unfolding replace_from has_prefix nat_eq
replace_from-once new post = refl

abbrev with_number : Text → Text → ℕ → Text
with_number pre post n = pre ++ (itoa n ++ post)

itoa_int-small : (n : ℕ) → n < 2 ^ 63 → itoa_int n ≡ itoa n
unfolding itoa_int
itoa_int-small n h = ground arith

numbered-eq-with_number :
    (pre post : Text) (n : ℕ)
    → HasNoDollar pre
    → HasNoDollar post
    → n < 2 ^ 63
    → numbered (pre ++ (number_placeholder ++ post)) n ≡ with_number pre post n
unfolding numbered
numbered-eq-with_number pre post n p q h =
    rw
      (
        itoa_int-small n h,
        replace_from-HasNoDollar (itoa n) pre (number_placeholder ++ post) p,
        replace_from-once (itoa n) post,
        replace_from-nothing (itoa n) post q,
      )
      refl

with_number-injective :
    (pre post : Text) (m n : ℕ) → with_number pre post m ≡ with_number pre post n → m ≡ n
with_number-injective pre post m n h = itoa-injective m n (
    append_cancel_right (itoa m) (itoa n) post
      (append_cancel_left pre (itoa m ++ post) (itoa n ++ post) h))

length-media_urls : (d : Dash) (n k : ℕ) → length (media_urls d n k) ≡ n
unfolding media_urls
length-media_urls d zero k = refl
length-media_urls d (suc n) k = ap suc (length-media_urls d n (k + 1))

-- The texts with `count` consecutive numbers between them.
abbrev pub with_numbers : Text → Text → ℕ → ℕ → List Text
with_numbers pre post n zero = []
with_numbers pre post n (suc count) = with_number pre post n ∷ with_numbers pre post (n + 1) count

media_urls-eq-with_numbers :
    (d : Dash) (pre post : Text) (count k : ℕ)
    → d.media ≡ pre ++ (number_placeholder ++ post)
    → HasNoDollar pre
    → HasNoDollar post
    → d.start_number + (k + count) < 2 ^ 63
    → media_urls d count k ≡ with_numbers pre post (d.start_number + k) count
unfolding media_urls
media_urls-eq-with_numbers d pre post zero k e p q small = refl
media_urls-eq-with_numbers d pre post (suc count) k e p q small =
    rw
      (
        first_number,
        first_url,
        media_urls-eq-with_numbers d pre post count (k + 1) e p q (omega arith),
        next_number,
      )
      refl
  where
    first_number : add_int d.start_number k ≡ d.start_number + k
    first_number = omega arith

    first_url : numbered d.media (d.start_number + k) ≡ with_number pre post (d.start_number + k)
    first_url = rw e (numbered-eq-with_number pre post (d.start_number + k) p q (omega arith))

    next_number : d.start_number + (k + 1) ≡ d.start_number + k + 1
    next_number = omega arith

contains-with_numbers :
    (pre post : Text) (n m count : ℕ)
    → m < n
    → contains (with_numbers pre post n count) (with_number pre post m) ≡ false
unfolding text_eq
contains-with_numbers pre post n m zero h = refl
contains-with_numbers pre post n m (suc count) h =
    ground (arith, apart, contains-with_numbers pre post (n + 1) m count (omega (arith, h)))
  where
    apart : with_number pre post m ≢ with_number pre post n
    apart same = absurd (omega (arith, h, with_number-injective pre post m n same))

with_numbers-Distinct : (pre post : Text) (n count : ℕ) → Distinct (with_numbers pre post n count)
with_numbers-Distinct pre post n zero = tt
with_numbers-Distinct pre post n (suc count) = (
  contains-with_numbers pre post (n + 1) n count (omega arith),
  with_numbers-Distinct pre post (n + 1) count,
)

segment_urls-small :
    (d : Dash)
    → d.segment_count + 1 < 2 ^ 63
    → segment_urls d ≡ some (d.initialization ∷ media_urls d d.segment_count 0)
unfolding segment_urls
segment_urls-small d h = ground arith

pub segment_urls-AreDistinct :
    (d : Dash) (pre post : Text)
    → d.media ≡ pre ++ (number_placeholder ++ post)
    → HasNoDollar pre
    → HasNoDollar post
    → d.start_number + d.segment_count + 1 < 2 ^ 63
    → (media : List Text) × (segment_urls d ≡ some (d.initialization ∷ media))
      × (media ≡ with_numbers pre post d.start_number d.segment_count)
      × (length media ≡ d.segment_count)
      × Distinct media
segment_urls-AreDistinct d pre post e p q small =
    let numbers =
      media_urls-eq-with_numbers d pre post d.segment_count 0 e p q (omega (arith, small))
      ∙ ap (λ n. with_numbers pre post n d.segment_count) from_start in
    (
      media_urls d d.segment_count 0,
      segment_urls-small d (omega arith),
      numbers,
      length-media_urls d d.segment_count 0,
      subst Distinct (sym numbers) (with_numbers-Distinct pre post d.start_number d.segment_count),
    )
  where
    from_start : d.start_number + 0 ≡ d.start_number
    from_start = omega arith
