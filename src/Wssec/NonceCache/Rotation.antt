-- ===== src/Wssec/NonceCache/Rotation.antt =====
-- What the rotation loop does.
use soap_server.Prelude.{
  ℕ, suc, ◌+◌, ◌*◌, ◌≤◌, ◌<◌, ◌≡◌, refl, inl, inr, Bool-cases, true, false, none, some, List, [],
  ◌∷◌, arith, leb, length, All,
}
use soap_server.Wssec.NonceCache.{NonceCache, nanos_per_sec, elapsed_secs, rotate, rotate_if_needed}

abbrev pub window : NonceCache → ℕ
window c = c.half_window_secs * nanos_per_sec

module _ (r : ℕ) (c : NonceCache) (positive : 0 < c.half_window_secs) where
  pub window-le_of_elapsed :
      leb c.half_window_secs (elapsed_secs c r) ≡ true → c.bucket_start + window c ≤ r
  window-le_of_elapsed h = ground arith

  pub within_of_elapsed :
      leb c.half_window_secs (elapsed_secs c r) ≡ false → r < c.bucket_start + window c
  within_of_elapsed h = ground arith

  pub elapsed_of_within :
      r < c.bucket_start + window c → leb c.half_window_secs (elapsed_secs c r) ≡ false
  elapsed_of_within h = ground arith

  pub elapsed_of_past :
      c.bucket_start + window c ≤ r → leb c.half_window_secs (elapsed_secs c r) ≡ true
  elapsed_of_past h = ground arith

pub rotate-within :
    (r : ℕ) (rs : List ℕ) (c : NonceCache)
    → 0 < c.half_window_secs
    → r < c.bucket_start + window c
    → rotate_if_needed (r ∷ rs) c ≡ some c
unfolding rotate_if_needed
rotate-within r rs c p h = ground (arith, elapsed_of_within r c p h)

-- With a positive half-window the rotation ends within one reading of the clock for each
-- window up to the last reading.
pub rotate_if_needed_total :
    (r : ℕ) (rs : List ℕ) (c : NonceCache) (last : ℕ)
    → 0 < c.half_window_secs
    → All (λ s. s ≤ last) (r ∷ rs)
    → last < c.bucket_start + window c * suc (length rs)
    → (c' : NonceCache) × (rotate_if_needed (r ∷ rs) c ≡ some c')
unfolding rotate_if_needed
rotate_if_needed_total r [] c last p h b = (c, rotate-within r [] c p (grind (arith)))
rotate_if_needed_total r (s ∷ rs) c last p (h, hs) b =
    elim (Bool-cases (leb c.half_window_secs (elapsed_secs c r))) [
      | inl past ↦
          let (c', e) = rotate_if_needed_total s rs (rotate c) last p hs (grind arith) in
          (c', rw past e)
      | inr inside ↦ (c, rw inside refl)
    ]

-- With a half-window of 0 the rotation does not end on any list of readings.
pub rotate-zero_window :
    (rs : List ℕ) (c : NonceCache) → c.half_window_secs ≡ 0 → rotate_if_needed rs c ≡ none
unfolding rotate_if_needed
rotate-zero_window [] c h = refl
rotate-zero_window (r ∷ rs) c h = ground (arith, rotate-zero_window rs (rotate c))

-- What every rotation keeps.
pub record SameLimits (c c' : NonceCache) : Type 0 where
  pub half_window : c'.half_window_secs ≡ c.half_window_secs
  pub max : c'.max_entries ≡ c.max_entries

pub rotate_if_needed-SameLimits :
    (rs : List ℕ) (c c' : NonceCache) → rotate_if_needed rs c ≡ some c' → SameLimits c c'
unfolding rotate_if_needed
rotate_if_needed-SameLimits [] c c' h = ground arith
rotate_if_needed-SameLimits (r ∷ rs) c c' h =
    ground (arith, rotate_if_needed-SameLimits rs (rotate c) c')

pub length-rotate_if_needed :
    (rs : List ℕ) (c c' : NonceCache)
    → rotate_if_needed rs c ≡ some c'
    → length c'.current ≤ length c.current
unfolding rotate_if_needed
length-rotate_if_needed [] c c' h = ground arith
length-rotate_if_needed (r ∷ rs) c c' h = ground (arith, length-rotate_if_needed rs (rotate c) c')

abbrev pub IsEmpty : NonceCache → Type 0
IsEmpty c = (c.current ≡ []) × (c.previous ≡ [])

rotate_if_needed-IsEmpty :
    (rs : List ℕ) (c c' : NonceCache) → IsEmpty c → rotate_if_needed rs c ≡ some c' → IsEmpty c'
unfolding rotate_if_needed
rotate_if_needed-IsEmpty [] c c' e h = ground arith
rotate_if_needed-IsEmpty (r ∷ rs) c c' e h =
    ground (arith, rotate_if_needed-IsEmpty rs (rotate c) c')

-- After an idle time of two windows or more both buckets are empty.
pub idle_gap :
    (rs : List ℕ) (c c' : NonceCache)
    → 0 < c.half_window_secs
    → All (λ s. c.bucket_start + 2 * window c ≤ s) rs
    → rotate_if_needed rs c ≡ some c'
    → IsEmpty c'
unfolding rotate_if_needed
idle_gap [] c c' p h e = ground arith
idle_gap (r ∷ []) c c' p (h, _) e = ground (arith, elapsed_of_past r c p (omega arith))
idle_gap (r ∷ s ∷ rs) c c' p (h, (k, _)) e = ground (
  arith,
  elapsed_of_past r c p (omega arith),
  elapsed_of_past s (rotate c) p (omega arith),
  rotate_if_needed-IsEmpty rs (rotate (rotate c)) c',
)
