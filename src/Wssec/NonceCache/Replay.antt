-- ===== src/Wssec/NonceCache/Replay.antt =====
-- A nonce that was accepted is refused as long as the window lasts.
use soap_server.Prelude.{
  ℕ, suc, ◌+◌, ◌≤◌, ◌<◌, ◌≡◌, ap, ◌⊎◌, inl, inr, true, Bytes, bytes, Option, none, some,
  Option-cases, List, [], ◌∷◌, arith, length, All, contains, contains-insert_set, length-insert_set,
  str_eq, str_beq_iff, ok,
}
use soap_server.Fault.{Fallible, fail}
use soap_server.Wssec.NonceCache.{
  NonceCache, Clock, rotate, rotate_if_needed, is_known, check_rotated, check_and_insert,
}
use soap_server.Wssec.NonceCache.Rotation.{
  window, window-le_of_elapsed, within_of_elapsed, length-rotate_if_needed, SameLimits,
  rotate_if_needed-SameLimits,
}

-- The cache holds a nonce that was accepted no earlier than `since`, and will not drop it before
-- the window after `since` has passed.
abbrev pub Remembers : Bytes → ℕ → NonceCache → Type 0
Remembers n since c =
    ((contains c.current n ≡ true) × (since < c.bucket_start + window c))
    ⊎ ((contains c.previous n ≡ true) × (since < c.bucket_start))

rotate_if_needed-Remembers :
    (n : Bytes) (since : ℕ) (rs : List ℕ) (c c' : NonceCache)
    → 0 < c.half_window_secs
    → All (λ r. r < since + window c) rs
    → rotate_if_needed rs c ≡ some c'
    → Remembers n since c
    → Remembers n since c'
unfolding rotate_if_needed
rotate_if_needed-Remembers n since [] c c' p h e m = ground arith
rotate_if_needed-Remembers n since (r ∷ rs) c c' p (h, hs) e m =
    ground
      (arith, window-le_of_elapsed r c p, rotate_if_needed-Remembers n since rs (rotate c) c' p hs)

is_known_of_Remembers :
    (n : Bytes) (since : ℕ) (c : NonceCache) → Remembers n since c → is_known c n ≡ true
unfolding is_known
is_known_of_Remembers n since c m = ground arith

-- The nonce that was accepted is remembered from the first reading on.
rotate_if_needed-window :
    (since : ℕ) (rs : List ℕ) (c c' : NonceCache)
    → 0 < c.half_window_secs
    → All (λ r. since ≤ r) rs
    → rotate_if_needed rs c ≡ some c'
    → since < c'.bucket_start + window c'
unfolding rotate_if_needed
rotate_if_needed-window since [] c c' p h e = ground arith
rotate_if_needed-window since (r ∷ rs) c c' p (h, hs) e =
    ground (arith, within_of_elapsed r c p, rotate_if_needed-window since rs (rotate c) c' p hs)

-- One call for any nonce, while the bucket has room, forgets nothing.
record Kept (c c' : NonceCache) : Type 0 where
  room : length c'.current ≤ length c.current + 1
  limits : SameLimits c c'

module _ (n : Bytes) (since instant : ℕ) (m : Bytes) (c : NonceCache) where
  check_rotated-Remembers :
      length c.current < c.max_entries
      → Remembers n since c
      → Remembers n since (check_rotated instant m c).1
  unfolding check_rotated
  check_rotated-Remembers h r = ground (arith, contains-insert_set m n c.current)

  check_rotated-Kept : length c.current < c.max_entries → Kept c (check_rotated instant m c).1
  unfolding check_rotated
  check_rotated-Kept h = ground (arith, length-insert_set m c.current)

pub record Call : Type 0 where
  pub clock : Clock
  pub nonce : Bytes

-- The cache after the calls, whatever each returned.
unfoldable pub after_calls : List Call → NonceCache → Option NonceCache
after_calls [] c = some c
after_calls (call ∷ rest) c = elim (check_and_insert call.clock call.nonce c) [
  | none ↦ none
  | some (out, c') ↦ after_calls rest c'
]

-- A call that returns has rotated, and then checked.
pub check_and_insert-eq-some :
    (clock : Clock) (m : Bytes) (c c' : NonceCache) (out : Fallible (Unit {0}))
    → check_and_insert clock m c ≡ some (out, c')
    → (d : NonceCache) × (rotate_if_needed clock.readings c ≡ some d)
      × (check_rotated clock.instant m d ≡ (out, c'))
check_and_insert-eq-some clock m c c' out e =
    elim (Option-cases (rotate_if_needed clock.readings c)) [
      | inl stuck ↦ unfold check_and_insert in absurd (ground arith)
      | inr (d, rotated) ↦ (d, rotated, unfold check_and_insert in ground arith)
    ]

-- A nonce that the call finds in a bucket is refused, and changes nothing more.
check_rotated-known :
    (instant : ℕ) (n : Bytes) (c : NonceCache)
    → is_known c n ≡ true
    → check_rotated instant n c ≡ (fail (bytes "WS-Security nonce replay detected"), c)
unfolding check_rotated
check_rotated-known instant n c h = ground arith

-- What a run of calls keeps, with room for `k` more.
record IsReady (n : Bytes) (since w k : ℕ) (c : NonceCache) : Type 0 where
  remembers : Remembers n since c
  positive : 0 < c.half_window_secs
  same : window c ≡ w
  room : length c.current + k ≤ c.max_entries

IsReady-le :
    (n : Bytes) (since w k k' : ℕ) (c : NonceCache)
    → k' ≤ k
    → IsReady n since w k c
    → IsReady n since w k' c
IsReady-le n since w k k' c h s = record {
  remembers = s.remembers;
  positive = s.positive;
  same = s.same;
  room = omega (arith, s.room);
}

module _ (n : Bytes) (since w : ℕ) where
  check_and_insert-IsReady :
      (k : ℕ) (clock : Clock) (m : Bytes) (c c' : NonceCache) (out : Fallible (Unit {0}))
      → IsReady n since w (suc k) c
      → All (λ r. r < since + w) clock.readings
      → check_and_insert clock m c ≡ some (out, c')
      → IsReady n since w k c'
  check_and_insert-IsReady k clock m c c' out s h e =
      let (d, rotated, checked) = check_and_insert-eq-some clock m c c' out e in
      let limits = rotate_if_needed-SameLimits clock.readings c d rotated in
      let shorter = length-rotate_if_needed clock.readings c d rotated in
      let kept =
        rotate_if_needed-Remembers n since clock.readings c d s.positive (rw s.same h) rotated
          s.remembers in
      let room : length d.current < d.max_entries = omega (arith, s.room, limits.max) in
      let k' = check_rotated-Kept n since clock.instant m d room in
      let r' = check_rotated-Remembers n since clock.instant m d room kept in
      let after : (check_rotated clock.instant m d).1 ≡ c' = ap (λ p. p.1) checked in
      rw (← after) (record {
        remembers = r';
        positive = omega (arith, s.positive, limits.half_window, k'.limits.half_window);
        same = cc (s.same, limits.half_window, k'.limits.half_window);
        room = omega (arith, s.room, shorter, k'.room, limits.max, k'.limits.max);
      })

  after_calls-IsReady :
      (calls : List Call) (k : ℕ) (c c' : NonceCache)
      → IsReady n since w (length calls + k) c
      → All (λ call. All (λ r. r < since + w) call.clock.readings) calls
      → after_calls calls c ≡ some c'
      → IsReady n since w k c'
  unfolding after_calls
  after_calls-IsReady [] k c c' s h e =
      let same : c ≡ c' = ground arith in
      rw (← same) (IsReady-le n since w (0 + k) k c (omega arith) s)
  after_calls-IsReady (call ∷ calls) k c c' s (h, hs) e =
      elim (Option-cases (check_and_insert call.clock call.nonce c)) [
        | inl stuck ↦ absurd (ground arith)
        | inr ((out, d), e') ↦
            after_calls-IsReady calls k d c'
              (check_and_insert-IsReady (length calls + k) call.clock call.nonce c d out
                (IsReady-le n since w _ (suc (length calls + k)) c (omega arith) s) h e')
              hs (ground arith)
      ]

-- A nonce that is accepted is in the bucket afterwards.
check_rotated-accepted :
    (n : Bytes) (since instant : ℕ) (d c' : NonceCache)
    → 0 < d.half_window_secs
    → since ≤ instant
    → since < d.bucket_start + window d
    → check_rotated instant n d ≡ (ok tt, c')
    → Remembers n since c' × SameLimits d c'
unfolding check_rotated
check_rotated-accepted n since instant d c' p h i e =
    ground (arith, contains-insert_set n n d.current, contains-insert_set n n [], str_beq_iff n n)

-- With a positive half-window, a nonce that was accepted is refused by a later call, whatever
-- calls come in between, if no reading of the clock for the first call precedes some instant,
-- all readings afterwards lie within one half-window of that instant, and the bucket has room
-- for the calls in between; the nonce then is still known.
pub replay_refused :
    (n : Bytes) (since : ℕ) (first again : Clock) (calls : List Call) (c c₁ c₂ c₃ : NonceCache)
    (out : Fallible (Unit {0}))
    → 0 < c.half_window_secs
    → All (λ r. since ≤ r) first.readings
    → since ≤ first.instant
    → check_and_insert first n c ≡ some (ok tt, c₁)
    → length c₁.current + length calls ≤ c₁.max_entries
    → All (λ call. All (λ r. r < since + window c) call.clock.readings) calls
    → All (λ r. r < since + window c) again.readings
    → after_calls calls c₁ ≡ some c₂
    → check_and_insert again n c₂ ≡ some (out, c₃)
    → (out ≡ fail (bytes "WS-Security nonce replay detected")) × (is_known c₃ n ≡ true)
replay_refused n since first again calls c c₁ c₂ c₃ out p h i e room hs h' run e' =
    let (d, rotated, checked) = check_and_insert-eq-some first n c c₁ (ok tt) e in
    let l = rotate_if_needed-SameLimits first.readings c d rotated in
    let inside = rotate_if_needed-window since first.readings c d p h rotated in
    let (m, l') =
      check_rotated-accepted n since first.instant d c₁ (omega (arith, l.half_window)) i inside
        checked in
    let start : IsReady n since (window c) (length calls + 0) c₁ = record {
      remembers = m;
      positive = omega (arith, l.half_window, l'.half_window);
      same = cc (l.half_window, l'.half_window);
      room = omega (arith, room);
    } in
    let s = after_calls-IsReady n since (window c) calls 0 c₁ c₂ start hs run in
    let (d', rotated', checked') = check_and_insert-eq-some again n c₂ c₃ out e' in
    let kept =
      rotate_if_needed-Remembers n since again.readings c₂ d' s.positive (rw s.same h') rotated'
        s.remembers in
    let known = is_known_of_Remembers n since d' kept in
    let refused = check_rotated-known again.instant n d' known in
    (cc (checked', refused), cc (checked', refused, known))
