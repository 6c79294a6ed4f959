-- ===== src/Tidal/Client/Delay.antt =====
-- The wait before a request is tried again.
use tidal_syncer.Shared.{
  ℕ, ◌*◌, ◌^◌, ◌<◌, false, Bool-cases, Option, some, inl, inr, [], Text, text_eq, nat_eq, ◌==◌, leb,
  arith, ◌≡◌, ◌≢◌, refl,
}
use tidal_syncer.Shared.Int.{ℤ, pos}
use tidal_syncer.Strconv.{atoi}
use tidal_syncer.Failure.{ok}
use tidal_syncer.Tidal.Client.{Response, second, seconds, min_ℤ, retry_after, backoff}

seconds-small : (n : ℕ) → n * second < 2 ^ 63 → seconds n ≡ pos (n * second)
seconds-small n h = ground arith

retry_after-eq-seconds :
    (until : Text → Option ℤ) (r : Response) (n : ℕ)
    → r.status ≡ 429
    → r.retry_after ≢ []
    → atoi r.retry_after ≡ ok n
    → n * second < 2 ^ 63
    → retry_after until (some r) ≡ some (pos (n * second))
unfolding retry_after nat_eq text_eq
retry_after-eq-seconds until r n status header h small =
    let in_range : leb (2 ^ 63) n ≡ false = ground arith in
    rw (status, h, in_range, seconds-small n small)
      (elim (Bool-cases (r.retry_after == [])) [
        | inl empty ↦ absurd (header (ground (arith, empty)))
        | inr there ↦ rw there refl
      ])

-- A 429 with a number of seconds in its header is followed by a wait of exactly these, or of the
-- longest wait if that is shorter, whatever the library's own policy; the seconds must fit into a
-- duration.
pub backoff-eq-seconds :
    (until : Text → Option ℤ) (default : ℤ) (wait_max : ℕ) (r : Response) (n : ℕ)
    → r.status ≡ 429
    → r.retry_after ≢ []
    → atoi r.retry_after ≡ ok n
    → n * second < 2 ^ 63
    → backoff until default (pos wait_max) (some r) ≡ min_ℤ (pos (n * second)) (pos wait_max)
unfolding backoff
backoff-eq-seconds until default wait_max r n status header h small =
    rw (backoff, retry_after-eq-seconds until r n status header h small) refl
