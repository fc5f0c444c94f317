-- ===== src/Tests/Nonces.antt =====
-- The replay cache and freshness, on concrete inputs.
use soap_server.Prelude.{
  true, ◌+◌, ◌*◌, ◌≤◌, ◌≡◌, refl, ◌↔◌, bytes, some, [], ◌∷◌, arith, ok, length, contains,
  insert_set, str_beq,
}
use soap_server.Prelude.Int.{pos}
use soap_server.Fault.{fail}
use soap_server.Wssec.NonceCache.{
  NonceCache, check_and_insert, check_rotated, is_known, make_room, remember, rotate_if_needed,
}
use soap_server.Wssec.NonceCache.Replay.{replay_refused, after_calls}
use soap_server.Wssec.NonceCache.Bounds.{check_and_insert-IsBounded, accepted_after_idle, IsBounded}
use soap_server.Wssec.Timestamp.{check_freshness, check_freshness_iff, nanos_per_sec}
use soap_server.Tests.Fixture.{nonce, cache, used, early, later}

replay_refused_example :
    (fail {A = Unit {0}} (bytes "WS-Security nonce replay detected")
      ≡ fail (bytes "WS-Security nonce replay detected"))
    × (is_known used nonce ≡ true)
unfolding check_and_insert check_rotated is_known make_room remember rotate_if_needed after_calls
    contains insert_set bytes str_beq
replay_refused_example =
    replay_refused nonce 0 early later [] cache used used used
      (fail (bytes "WS-Security nonce replay detected")) (omega arith) (omega arith, tt)
      (omega arith) refl (omega arith) tt (omega arith, tt) refl refl

check_and_insert-IsBounded_example :
    IsBounded used × (length used.current + length used.previous ≤ 2 * cache.max_entries)
unfolding check_and_insert check_rotated is_known make_room remember rotate_if_needed contains
    insert_set bytes str_beq
check_and_insert-IsBounded_example =
    check_and_insert-IsBounded early nonce cache used (ok tt) (omega arith)
      (record { current = omega arith; previous = omega arith }) refl

accepted_after_idle_example :
    (c' : NonceCache) × (check_and_insert
        (record { readings = 20_000_000_000 ∷ 20_000_000_000 ∷ 20_000_000_000 ∷ []; instant = 0 })
        nonce
        used
      ≡ some (ok tt, c'))
    × (c'.current ≡ nonce ∷ [])
    × (c'.previous ≡ [])
accepted_after_idle_example =
    accepted_after_idle 20_000_000_000 (20_000_000_000 ∷ 20_000_000_000 ∷ []) 0 20_000_000_000 nonce
      used (omega arith) (omega arith, (omega arith, (omega arith, tt)))
      (omega arith, (omega arith, (omega arith, tt))) (omega arith)

check_freshness_iff_example :
    (check_freshness 7 9 (pos 300) ≡ ok tt)
    ↔ ((7 ≤ 9 + 300 * nanos_per_sec) × (9 ≤ 7 + 300 * nanos_per_sec))
check_freshness_iff_example = check_freshness_iff 7 9 300
