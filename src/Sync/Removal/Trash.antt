-- ===== src/Sync/Removal/Trash.antt =====
-- Where a file lands that is moved to the trash.
use mathlib.Core.List.{reverse, reverse_aux, append-nil}
use tidal_syncer.Shared.{
  Bool, true, false, ◌||◌, Bool-cases, ◌⊎◌, inl, inr, some, List, [], ◌∷◌, ◌++◌, Text, codes,
  text_eq, nat_eq, ◌==◌, All, arith, ◌≡◌, refl, ◌∙◌, sym, ap,
}
use tidal_syncer.Files.Path.{FilePath, rel, clean, push, push_all, go_up, dot_dot, is_rooted}
use tidal_syncer.Namer.Template.{split}
use tidal_syncer.Sync.Removal.{trash_path, starts_up, within_music}
use tidal_syncer.Sync.Removal.Within.{within_music_lem, rel-append}

-- A component that stays when a path is cleaned.
abbrev IsNormal : Text → Type 0
IsNormal c = ((c == [] || c == codes ".") ≡ false) × ((c == dot_dot) ≡ false)

abbrev IsUp : Text → Type 0
IsUp c = (c == dot_dot) ≡ true

-- The components of a cleaned path, the last first: normal ones, and behind them the ups.
abbrev pub IsCleaned : List Text → Type 0
IsCleaned [] = Unit
IsCleaned (c ∷ out) = (IsNormal c × IsCleaned out) ⊎ (IsUp c × All IsUp out)

up_lem : IsUp dot_dot
up_lem = ground arith

go_up-IsCleaned : (rooted : Bool) (out : List Text) → IsCleaned out → IsCleaned (go_up rooted out)
unfolding go_up
go_up-IsCleaned true [] h = tt
go_up-IsCleaned false [] h = inr (up_lem, tt)
go_up-IsCleaned rooted (c ∷ out) h = elim (Bool-cases (c == dot_dot)) [
  | inl e ↦ rw e (elim h [ inl n ↦ absurd (ground (arith, n, e)) | inr u ↦ inr (up_lem, u) ])
  | inr e ↦ rw e (elim h [ inl n ↦ n.1 | inr u ↦ absurd (ground (arith, u, e)) ])
]

push-IsCleaned :
    (rooted : Bool) (out : List Text) (c : Text) → IsCleaned out → IsCleaned (push rooted out c)
unfolding push
push-IsCleaned rooted out c h = elim (Bool-cases (c == [] || c == codes ".")) [
  | inl e ↦ rw e h
  | inr e ↦ rw e (elim (Bool-cases (c == dot_dot)) [
    | inl u ↦ rw u (go_up-IsCleaned rooted out h)
    | inr u ↦ rw u (inl ((e, u), h))
  ])
]

push_all-IsCleaned :
    (rooted : Bool) (out cs : List Text) → IsCleaned out → IsCleaned (push_all rooted out cs)
unfolding push_all
push_all-IsCleaned rooted out [] h = h
push_all-IsCleaned rooted out (c ∷ cs) h =
    push_all-IsCleaned rooted (push rooted out c) cs (push-IsCleaned rooted out c h)

reverse_aux-reverse_aux :
    (xs ys zs : List Text) → reverse_aux (reverse_aux xs ys) zs ≡ reverse_aux ys (xs ++ zs)
reverse_aux-reverse_aux [] ys zs = refl
reverse_aux-reverse_aux (x ∷ xs) ys zs = reverse_aux-reverse_aux xs (x ∷ ys) zs

reverse_aux-append :
    (xs ys zs : List Text) → reverse_aux (xs ++ ys) zs ≡ reverse_aux ys (reverse_aux xs zs)
reverse_aux-append [] ys zs = refl
reverse_aux-append (x ∷ xs) ys zs = reverse_aux-append xs ys (x ∷ zs)

pub clean-IsCleaned : (s : Text) → IsCleaned (reverse (clean s).parts)
unfolding clean
clean-IsCleaned s =
    let out = push_all (is_rooted s) [] (split b'/' s) in
    rw (reverse_aux-reverse_aux out [] [])
      (rw append-nil (push_all-IsCleaned (is_rooted s) [] (split b'/' s) tt))

-- Behind a component that is no up there are only normal ones.
rest-IsNormal :
    (r acc : List Text)
    → IsCleaned (reverse_aux r acc)
    → ¬ All IsUp acc
    → All IsNormal r × IsCleaned acc
rest-IsNormal [] acc h n = (tt, h)
rest-IsNormal (c ∷ r) acc h n =
    let (normal, cleaned) = rest-IsNormal r (c ∷ acc) h (λ u. n u.1) in
    elim cleaned [ inl k ↦ ((k.0, normal), k.1) | inr u ↦ absurd (n u.1) ]

suffix-IsNormal :
    (m r : List Text) → IsCleaned (reverse (m ++ r)) → starts_up r ≡ false → All IsNormal r
suffix-IsNormal m [] h n = tt
suffix-IsNormal m (c ∷ r) h n =
    let k : IsCleaned (reverse_aux r (c ∷ reverse_aux m [])) =
      rw (reverse_aux-append m (c ∷ r) []) at h in
    let (normal, cleaned) =
      rest-IsNormal r (c ∷ reverse_aux m []) k (λ u. absurd (ground (arith, u.0, n))) in
    elim cleaned [ inl i ↦ (i.0, normal) | inr u ↦ absurd (ground (arith, u.0, n)) ]

push_all-normal :
    (rooted : Bool) (out cs : List Text)
    → All IsNormal cs
    → push_all rooted out cs ≡ reverse_aux cs out
unfolding push_all push
push_all-normal rooted out [] h = refl
push_all-normal rooted out (c ∷ cs) h = rw (h.0.0, h.0.1) (push_all-normal rooted (c ∷ out) cs h.1)

-- A path within the root lands in the root's ".trash", under the components that it had below the root.
pub trash_path_lem :
    (music : FilePath) (r : List Text)
    → IsCleaned (reverse (music.parts ++ r))
    → starts_up r ≡ false
    → trash_path music r ≡ record music { parts = music.parts ++ codes ".trash" ∷ r }
trash_path_lem music r h n =
    let target : List Text = codes ".trash" ∷ r in
    let normal : All IsNormal target =
      ((ground arith, ground arith), suffix-IsNormal music.parts r h n) in
    ap (λ ps. record music { parts = ps })
      (ap reverse (push_all-normal music.rooted (reverse music.parts) target normal)
        ∙ reverse_aux-reverse_aux target (reverse music.parts) []
        ∙ rw append-nil (reverse_aux-reverse_aux music.parts [] target))

-- The source is below the root, and the destination has the same place below the root's ".trash".
abbrev pub IsTrashed : FilePath → FilePath → FilePath → List Text → Type 0
IsTrashed music src dest r =
    (src ≡ record music { parts = music.parts ++ r })
    × (dest ≡ record music { parts = music.parts ++ codes ".trash" ∷ r })

pub trash_path-IsTrashed :
    (music src : FilePath) (r : List Text)
    → IsCleaned (reverse src.parts)
    → within_music music src ≡ true
    → rel music src ≡ some r
    → IsTrashed music src (trash_path music r) r
trash_path-IsTrashed music src r h w e =
    let (r', same, n) = (within_music_lem music src).0 w in
    let found : some r' ≡ some r = sym (rel-append music r') ∙ ap (rel music) (sym same) ∙ e in
    let this : r' ≡ r = ground (arith, found) in
    let cleaned : IsCleaned (reverse (music.parts ++ r')) = rw same at h in
    (rw (sym this) same, rw (sym this) (trash_path_lem music r' cleaned n))
