-- ===== src/Manifest/Laws.antt =====
-- What `Parse` answers, branch by branch.
use mathlib.Core.Path.{subst}
use tidal_syncer.Shared.{
  ◌%◌, ◌^◌, ◌≢◌, true, Bool-cases, inl, inr, ◌⊎◌, Option, none, some, List, [], ◌∷◌, Text, text_eq,
  nat_eq, ◌==◌, ◌||◌, arith, ◌≡◌, refl, sym,
}
use tidal_syncer.Failure.{Error, encrypted, invalid_manifest, unknown_mime, Result, ok, err, ◌>>=◌}
use tidal_syncer.Manifest.{
  Manifest, kind_bts, kind_dash, BtsPayload, Decoders, mime_bts, mime_dash, encryption_none, bts_of,
  check_bts, parse_bts, parse_dash, parse,
}
use tidal_syncer.Manifest.Mpd.{
  AdaptationSet, SegmentTemplate, MpdDocument, Representation, first_representation, or_one,
  dash_of, dash_of_found, to_dash,
}
use tidal_syncer.Manifest.Mpd.Document.{
  of_periods, first, first_representation-eq-first, segments, total_segments-eq-segments,
}

-- How a JSON document is taken.
pub data BtsAnswer (payload : BtsPayload) : Result Manifest → Type 0 where
  protected : payload.encryption_type ≢ encryption_none → BtsAnswer payload (err (encrypted ∷ []))
  no_urls :
      payload.encryption_type ≡ encryption_none
      → payload.urls ≡ []
      → BtsAnswer payload (err (invalid_manifest ∷ []))
  direct :
      payload.encryption_type ≡ encryption_none
      → payload.urls ≢ []
      → BtsAnswer payload
          (ok (kind_bts (record { mime_type = payload.mime_type; urls = payload.urls })))

-- How an XML document is taken, by the first of its representations.
pub data DashAnswer (doc : MpdDocument) : Result Manifest → Type 0 where
  no_representation :
      first (of_periods doc.periods) ≡ none → DashAnswer doc (err (invalid_manifest ∷ []))
  incomplete :
      (set : AdaptationSet) (tmpl : SegmentTemplate)
      → first (of_periods doc.periods) ≡ some (set, record { segment_template = tmpl })
      → (tmpl.initialization == [] || tmpl.media == []) ≡ true
      → DashAnswer doc (err (invalid_manifest ∷ []))
  no_segments :
      (set : AdaptationSet) (tmpl : SegmentTemplate)
      → first (of_periods doc.periods) ≡ some (set, record { segment_template = tmpl })
      → segments tmpl.timeline % 2 ^ 64 ≡ 0
      → DashAnswer doc (err (invalid_manifest ∷ []))
  segmented :
      (set : AdaptationSet) (tmpl : SegmentTemplate)
      → first (of_periods doc.periods) ≡ some (set, record { segment_template = tmpl })
      → tmpl.initialization ≢ []
      → tmpl.media ≢ []
      → segments tmpl.timeline % 2 ^ 64 ≢ 0
      → DashAnswer doc (
          ok (
            kind_dash (record {
              mime_type = set.mime_type;
              initialization = tmpl.initialization;
              media = tmpl.media;
              start_number = or_one tmpl.start_number;
              segment_count = segments tmpl.timeline % 2 ^ 64;
            })))

module _ (decoders : Decoders) where
  pub data Answer (mime_type text : Text) : Result Manifest → Type 0 where
    unknown :
        mime_type ≢ mime_bts
        → mime_type ≢ mime_dash
        → Answer mime_type text (err (unknown_mime ∷ []))
    bad_base64 :
        (e : Error)
        → (mime_type ≡ mime_bts) ⊎ (mime_type ≡ mime_dash)
        → decoders.base64 text ≡ err e
        → Answer mime_type text (err e)
    bad_json :
        (raw : Text) (e : Error)
        → mime_type ≡ mime_bts
        → decoders.base64 text ≡ ok raw
        → decoders.json raw ≡ err e
        → Answer mime_type text (err e)
    bad_xml :
        (raw : Text) (e : Error)
        → mime_type ≡ mime_dash
        → decoders.base64 text ≡ ok raw
        → decoders.xml raw ≡ err e
        → Answer mime_type text (err e)
    bts :
        (raw : Text) (payload : BtsPayload) (answer : Result Manifest)
        → mime_type ≡ mime_bts
        → decoders.base64 text ≡ ok raw
        → decoders.json raw ≡ ok payload
        → BtsAnswer payload answer
        → Answer mime_type text answer
    dash :
        (raw : Text) (doc : MpdDocument) (answer : Result Manifest)
        → mime_type ≡ mime_dash
        → decoders.base64 text ≡ ok raw
        → decoders.xml raw ≡ ok doc
        → DashAnswer doc answer
        → Answer mime_type text answer

bts_of-answer :
    (payload : BtsPayload) (urls : List Text)
    → payload.encryption_type ≡ encryption_none
    → payload.urls ≡ urls
    → BtsAnswer payload (bts_of payload urls)
bts_of-answer payload [] e u = no_urls e u
bts_of-answer payload (url ∷ urls) e u =
    subst
      (λ us.
        BtsAnswer payload (ok (kind_bts (record { mime_type = payload.mime_type; urls = us }))))
      u (direct e (λ none_left. absurd (ground (arith, u, none_left))))

check_bts-answer : (payload : BtsPayload) → BtsAnswer payload (check_bts payload)
unfolding check_bts
check_bts-answer payload = elim (Bool-cases (payload.encryption_type == encryption_none)) [
  | inl plain ↦ rw plain (bts_of-answer payload payload.urls (ground (arith, plain)) refl)
  | inr other ↦ rw other (protected (ground (arith, other)))
]

dash_of-answer :
    (doc : MpdDocument) (set : AdaptationSet) (tmpl : SegmentTemplate)
    → first (of_periods doc.periods) ≡ some (set, record { segment_template = tmpl })
    → DashAnswer doc (do d ← dash_of set tmpl; ok (kind_dash d))
unfolding dash_of
dash_of-answer doc set tmpl found =
    rw (total_segments-eq-segments tmpl.timeline)
      (elim (Bool-cases (tmpl.initialization == [] || tmpl.media == [])) [
        | inl missing ↦ rw missing (incomplete set tmpl found missing)
        | inr there ↦ rw there (elim (Bool-cases (segments tmpl.timeline % 2 ^ 64 == 0)) [
          | inl zero_count ↦ rw zero_count (no_segments set tmpl found (ground (arith, zero_count)))
          | inr some_count ↦ rw some_count (
              segmented set tmpl found (ground (arith, there)) (ground (arith, there))
                (ground (arith, some_count)))
        ])
      ])

found-answer :
    (doc : MpdDocument) (found : Option (AdaptationSet × Representation))
    → first (of_periods doc.periods) ≡ found
    → DashAnswer doc (do d ← dash_of_found found; ok (kind_dash d))
unfolding dash_of_found
found-answer doc none e = no_representation e
found-answer doc (some (set, rep)) e = dash_of-answer doc set rep.segment_template e

to_dash-answer : (doc : MpdDocument) → DashAnswer doc (do d ← to_dash doc; ok (kind_dash d))
unfolding to_dash
to_dash-answer doc =
    found-answer doc (first_representation doc) (sym (first_representation-eq-first doc))

module _ (decoders : Decoders) (mime_type text : Text) where
  decoded :
      {A : Type 0} (r : Result A) (next : A → Result Manifest)
      → ((e : Error) → r ≡ err e → Answer decoders mime_type text (err e))
      → ((a : A) → r ≡ ok a → Answer decoders mime_type text (next a))
      → Answer decoders mime_type text (do a ← r; next a)
  decoded (err e) next failed went = failed e refl
  decoded (ok a) next failed went = went a refl

  parse_bts-Answer : mime_type ≡ mime_bts → Answer decoders mime_type text (parse_bts decoders text)
  unfolding parse_bts
  parse_bts-Answer m =
      decoded (decoders.base64 text) _ (λ e b. bad_base64 e (inl m) b)
        λ raw b.
          decoded (decoders.json raw) _ (λ e j. bad_json raw e m b j)
            λ payload j. bts raw payload (check_bts payload) m b j (check_bts-answer payload)

  parse_dash-Answer :
      mime_type ≡ mime_dash → Answer decoders mime_type text (parse_dash decoders text)
  unfolding parse_dash
  parse_dash-Answer m =
      decoded (decoders.base64 text) _ (λ e b. bad_base64 e (inr m) b)
        λ raw b.
          decoded (decoders.xml raw) _ (λ e j. bad_xml raw e m b j)
            λ doc j. dash raw doc _ m b j (to_dash-answer doc)

  -- `Parse` answers with one of: an unknown type, the error of a decoder, a protected stream exactly
  -- when the document declares an encryption other than NONE, an unusable document (no URLs; no
  -- representation, an incomplete template, or no segments), or the manifest with the URLs of the JSON
  -- document, or with the template of the first representation and the number of its segments.
  pub parse-Answer : Answer decoders mime_type text (parse decoders mime_type text)
  unfolding parse
  parse-Answer = elim (Bool-cases (mime_type == mime_bts)) [
    | inl is_bts ↦ rw is_bts (parse_bts-Answer (ground (arith, is_bts)))
    | inr not_bts ↦ rw not_bts (elim (Bool-cases (mime_type == mime_dash)) [
      | inl is_dash ↦ rw is_dash (parse_dash-Answer (ground (arith, is_dash)))
      | inr not_dash ↦ rw not_dash (unknown (ground (arith, not_bts)) (ground (arith, not_dash)))
    ])
  ]
