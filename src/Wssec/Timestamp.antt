-- ===== src/Wssec/Timestamp.antt =====
-- Freshness of a token's `Created` time (src/wssec/timestamp.rs). A `DateTime` is a number of
-- nanoseconds after some fixed instant; `parse_from_rfc3339` of chrono is an argument.
use soap_server.Prelude.{
  ℕ, ◌+◌, ◌*◌, ◌≤◌, ◌≡◌, ◌↔◌, Bytes, bytes, Option, arith, if◌then◌else◌, ok, ok_or,
}
use soap_server.Prelude.Int.{ℤ, pos, negsuc, sub_ℕ, neg, scale, lt_ℤ}
use soap_server.Fault.{Fallible, fail, sender_fault}

abbrev pub nanos_per_sec : ℕ
nanos_per_sec = 1_000_000_000

abbrev pub DateTime : Type 0
DateTime = ℕ

-- `Duration::seconds`
abbrev pub seconds : ℤ → ℤ
seconds = scale nanos_per_sec

unfoldable pub parse_created : (Bytes → Option DateTime) → Bytes → Fallible DateTime
parse_created parse_from_rfc3339 s =
    ok_or (sender_fault (bytes "Invalid WS-Security timestamp format")) (parse_from_rfc3339 s)

unfoldable pub check_freshness : DateTime → DateTime → ℤ → Fallible (Unit {0})
check_freshness now created tolerance_secs =
    let diff = sub_ℕ now created in
    if lt_ℤ (seconds tolerance_secs) diff
    then fail (bytes "WS-Security timestamp expired")
    else if lt_ℤ diff (seconds (neg tolerance_secs))
    then fail (bytes "WS-Security timestamp is in the future")
    else ok tt

-- With a tolerance of so many seconds a time is fresh exactly if it lies at most that far from
-- now, before or after.
pub check_freshness_iff :
    (now created secs : ℕ)
    → (check_freshness now created (pos secs) ≡ ok tt)
      ↔ ((now ≤ created + secs * nanos_per_sec) × (created ≤ now + secs * nanos_per_sec))
unfolding check_freshness
check_freshness_iff now created secs = ground arith

-- With a negative tolerance no time is fresh.
pub check_freshness-negative :
    (now created n : ℕ) → ¬ (check_freshness now created (negsuc n) ≡ ok tt)
unfolding check_freshness
check_freshness-negative now created n = ground arith
