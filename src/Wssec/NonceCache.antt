-- ===== src/Wssec/NonceCache.antt =====
-- The replay cache (src/wssec/nonce_cache.rs). Instants are nanoseconds of one clock. The loop of
-- `rotate_if_needed` reads the clock once a round: the list of readings is an argument, and `none`
-- says that the loop was still running when the list ended.
pub mod Rotation
pub mod Replay
pub mod Bounds
use soap_server.Prelude.{
  ℕ, ◌+◌, ◌-◌, ◌*◌, ◌/◌, Bytes, bytes, Bool, ◌||◌, Option, none, some, List, [], ◌∷◌, leb, length,
  if◌then◌else◌, contains, insert_set, str_eq, Result, ok, err,
}
use soap_server.Fault.{Fallible, fail}

pub record NonceCache : Type 0 where
  pub current : List Bytes
  pub previous : List Bytes
  pub bucket_start : ℕ
  pub half_window_secs : ℕ
  pub max_entries : ℕ

abbrev pub nanos_per_sec : ℕ
nanos_per_sec = 1_000_000_000

abbrev pub default_max_entries : ℕ
default_max_entries = 100_000

-- `RotatingNonceCache::with_max_entries`, at the instant `now`.
abbrev pub with_max_entries : ℕ → ℕ → ℕ → NonceCache
with_max_entries now half_window max = record {
  current = [];
  previous = [];
  bucket_start = now;
  half_window_secs = half_window;
  max_entries = max;
}

-- `RotatingNonceCache::new`
abbrev pub new : ℕ → ℕ → NonceCache
new now half_window = with_max_entries now half_window default_max_entries

-- The readings of the clock that one call of `check_and_insert` makes: those of its loop, and the
-- one of a forced rotation.
pub record Clock : Type 0 where
  pub readings : List ℕ
  pub instant : ℕ

-- `bucket_start.elapsed().as_secs()` at a reading.
abbrev pub elapsed_secs : NonceCache → ℕ → ℕ
elapsed_secs c reading = (reading - c.bucket_start) / nanos_per_sec

-- The body of the loop.
abbrev pub rotate : NonceCache → NonceCache
rotate c = record c {
  current = [];
  previous = c.current;
  bucket_start = c.bucket_start + c.half_window_secs * nanos_per_sec;
}

unfoldable pub rotate_if_needed : List ℕ → NonceCache → Option NonceCache
rotate_if_needed [] c = none
rotate_if_needed (reading ∷ rest) c =
    let again = rotate_if_needed rest (rotate c) in
    if leb c.half_window_secs (elapsed_secs c reading) then again else some c

unfoldable pub is_known : NonceCache → Bytes → Bool
is_known c nonce = contains c.current nonce || contains c.previous nonce

-- The rotation that a full bucket forces.
unfoldable pub make_room : ℕ → NonceCache → NonceCache
make_room instant c =
    if leb c.max_entries (length c.current)
    then record c { current = []; previous = c.current; bucket_start = instant }
    else c

unfoldable pub remember : Bytes → NonceCache → NonceCache
remember nonce c = record c { current = insert_set nonce c.current }

-- What follows the loop.
unfoldable pub check_rotated : ℕ → Bytes → NonceCache → Fallible (Unit {0}) × NonceCache
unfolding is_known make_room remember
check_rotated instant nonce c =
    if is_known c nonce
    then (fail (bytes "WS-Security nonce replay detected"), c)
    else (ok tt, remember nonce (make_room instant c))

abbrev check_after : ℕ → Bytes → Option NonceCache → Option (Fallible (Unit {0}) × NonceCache)
check_after instant nonce none = none
check_after instant nonce (some c) = some (check_rotated instant nonce c)

unfoldable pub check_and_insert :
    Clock → Bytes → NonceCache → Option (Fallible (Unit {0}) × NonceCache)
unfolding rotate_if_needed
check_and_insert clock nonce c = check_after clock.instant nonce (rotate_if_needed clock.readings c)
