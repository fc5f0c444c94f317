-- ===== src/Wssec/NonceCache/Bounds.antt =====
-- The memory that the cache takes, and that an idle cache starts afresh.
use soap_server.Prelude.{
  ℕ, suc, ◌+◌, ◌*◌, ◌≤◌, ◌<◌, ◌≡◌, ap, Bytes, some, List, [], ◌∷◌, arith, length, All,
  length-insert_set, str_eq, ok, contains, insert_set,
}
use soap_server.Fault.{Fallible}
use soap_server.Wssec.NonceCache.{
  NonceCache, Clock, rotate, rotate_if_needed, check_rotated, check_after, check_and_insert,
}
use soap_server.Wssec.NonceCache.Rotation.{
  window, rotate_if_needed-SameLimits, rotate_if_needed_total, IsEmpty, idle_gap,
}
use soap_server.Wssec.NonceCache.Replay.{check_and_insert-eq-some}

pub record IsBounded (c : NonceCache) : Type 0 where
  pub current : length c.current ≤ c.max_entries
  pub previous : length c.previous ≤ c.max_entries

rotate_if_needed-IsBounded :
    (rs : List ℕ) (c d : NonceCache) → rotate_if_needed rs c ≡ some d → IsBounded c → IsBounded d
unfolding rotate_if_needed
rotate_if_needed-IsBounded [] c d e b = ground arith
rotate_if_needed-IsBounded (r ∷ rs) c d e b =
    ground (arith, rotate_if_needed-IsBounded rs (rotate c) d)

check_rotated-IsBounded :
    (instant : ℕ) (n : Bytes) (d : NonceCache)
    → 0 < d.max_entries
    → IsBounded d
    → IsBounded (check_rotated instant n d).1
      × ((check_rotated instant n d).1.max_entries ≡ d.max_entries)
unfolding check_rotated
check_rotated-IsBounded instant n d p b =
    ground (arith, length-insert_set n d.current, length-insert_set n [])

-- If the limit of entries is positive and both buckets are within it, they are so after a call
-- that returns, whether it accepts the nonce or refuses it, and hold at most twice the limit
-- together.
pub check_and_insert-IsBounded :
    (clock : Clock) (n : Bytes) (c c' : NonceCache) (out : Fallible (Unit {0}))
    → 0 < c.max_entries
    → IsBounded c
    → check_and_insert clock n c ≡ some (out, c')
    → IsBounded c' × (length c'.current + length c'.previous ≤ 2 * c.max_entries)
check_and_insert-IsBounded clock n c c' out p b e =
    let (d, rotated, checked) = check_and_insert-eq-some clock n c c' out e in
    let l = rotate_if_needed-SameLimits clock.readings c d rotated in
    let (b', m) =
      check_rotated-IsBounded clock.instant n d (omega (arith, l.max))
        (rotate_if_needed-IsBounded clock.readings c d rotated b) in
    let after : (check_rotated clock.instant n d).1 ≡ c' = ap (λ q. q.1) checked in
    rw (← after) (b', omega (arith, b'.current, b'.previous, m, l.max))

check_rotated-IsEmpty :
    (instant : ℕ) (n : Bytes) (d : NonceCache)
    → IsEmpty d
    → (check_rotated instant n d ≡ (ok tt, (check_rotated instant n d).1))
      × ((check_rotated instant n d).1.current ≡ n ∷ [])
      × ((check_rotated instant n d).1.previous ≡ [])
unfolding check_rotated contains insert_set
check_rotated-IsEmpty instant n d e = ground arith

-- With a positive half-window, if every reading lies two windows or more after the start of
-- the bucket, and the readings suffice to end the loop, any nonce is accepted, also one used
-- before, and the cache then holds it alone.
pub accepted_after_idle :
    (r : ℕ) (rs : List ℕ) (instant last : ℕ) (n : Bytes) (c : NonceCache)
    → 0 < c.half_window_secs
    → All (λ s. c.bucket_start + 2 * window c ≤ s) (r ∷ rs)
    → All (λ s. s ≤ last) (r ∷ rs)
    → last < c.bucket_start + window c * suc (length rs)
    → (c' : NonceCache) × (check_and_insert (record { readings = r ∷ rs; instant = instant }) n c
        ≡ some (ok tt, c'))
      × (c'.current ≡ n ∷ [])
      × (c'.previous ≡ [])
accepted_after_idle r rs instant last n c p gap bound h =
    let (d, rotated) = rotate_if_needed_total r rs c last p bound h in
    let empty = idle_gap (r ∷ rs) c d p gap rotated in
    let (accepted, current, previous) = check_rotated-IsEmpty instant n d empty in
    (
      (check_rotated instant n d).1,
      (unfold check_and_insert in rw (rotated, check_after) (ap some accepted)),
      current,
      previous,
    )
