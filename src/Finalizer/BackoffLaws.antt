-- ===== src/Finalizer/BackoffLaws.antt =====
-- The delay before a failed cleanup is tried again (internal/controller/finalizer.go).
use native.Mathlib.Nat.{div-add-mod, mod-lt}
use uptime_robot_operator.Prelude.{
  ℕ, zero, suc, ◌+◌, ◌*◌, ◌≤◌, ◌<◌, ◌≡◌, ◌∙◌, ap, Option, none, some, false, arith, ltb,
  if◌then◌else◌,
}
use uptime_robot_operator.Prelude.Int.{ℤ, pos, negsuc}
use uptime_robot_operator.Retry.Delay.{second}
use uptime_robot_operator.Finalizer.Backoff.{shifted, cleanup_backoff, nearest, negate}

-- 30, 60, 120 or 240 seconds, by sixths of the timeout
abbrev pub step_delay : ℕ → ℕ → ℕ
step_delay e t =
    if ltb (6 * e) t
    then 30 * second
    else if ltb (6 * e) (3 * t)
    then 60 * second
    else if ltb (6 * e) (5 * t)
    then 120 * second
    else 240 * second

nearest_bounds :
    (a b : ℕ) → 0 < b → (2 * b * nearest a b ≤ 2 * a + b) × (2 * a < 2 * b * nearest a b + b)
nearest_bounds a b h =
    omega (arith, div-add-mod (2 * a + b) (2 * b), mod-lt (2 * a + b) {m = 2 * b} (omega arith))

abbrev step_shift : ℕ → ℕ → ℕ
step_shift e t =
    if ltb (6 * e) t
    then 0
    else if ltb (6 * e) (3 * t)
    then 1
    else if ltb (6 * e) (5 * t)
    then 2
    else 3

-- the one number that the bounds leave
shift_of_bounds :
    (n e t : ℕ) → 0 < t → e ≤ t → 2 * t * n ≤ 6 * e + t → 6 * e < 2 * t * n + t → n ≡ step_shift e t
shift_of_bounds zero e t p h low high = ground arith
shift_of_bounds (suc zero) e t p h low high = ground arith
shift_of_bounds (suc (suc zero)) e t p h low high = ground arith
shift_of_bounds (suc (suc (suc zero))) e t p h low high = ground arith
shift_of_bounds (suc (suc (suc (suc n)))) e t p h low high = absurd (grind arith)

shifted_step : (e t : ℕ) → shifted (step_shift e t) ≡ pos (step_delay e t)
unfolding shifted
shifted_step e t = ground arith

-- A cleanup that fails while its timeout has not passed is tried again after 30, 60, 120 or 240
-- seconds: 30 in the first sixth of the timeout, 60 before its half, 120 before five sixths, and
-- 240 after that.
pub cleanup_backoff_steps :
    (e t : ℕ) → 0 < t → e ≤ t → cleanup_backoff (pos e) (pos t) ≡ some (pos (step_delay e t))
unfolding cleanup_backoff
cleanup_backoff_steps e t p h =
    let (low, high) = nearest_bounds (3 * e) t p in
    ap {B = Option ℤ} (λ (n : ℕ). some (shifted n))
      (shift_of_bounds (nearest (3 * e) t) e t p h (omega arith) (omega arith))
    ∙ ap some (shifted_step e t)

not_before : (n k t : ℕ) → 0 < t → 2 * t * suc n ≤ 6 * suc k + t → ltb (6 * suc k) t ≡ false
not_before n k t p low = grind arith

ahead_cases :
    (n k t : ℕ)
    → 0 < t
    → 2 * t * n ≤ 6 * suc k + t
    → 6 * suc k < 2 * t * n + t
    → (elim (negate n) as (λ x. Option ℤ) [ pos shift ↦ some (shifted shift) | negsuc m ↦ none ])
      ≡ (if ltb (6 * suc k) t then some (pos (30 * second)) else none)
unfolding shifted
ahead_cases zero k t p low high = ground arith
ahead_cases (suc n) k t p low high = rw (not_before n k t p low)

-- A cleanup that fails while its recorded start lies in the future is tried again after 30 seconds
-- where the start is less than a sixth of the timeout ahead, and is a panic, a shift by a negative
-- count, where it is further ahead.
pub cleanup_backoff_ahead :
    (k t : ℕ)
    → 0 < t
    → cleanup_backoff (negsuc k) (pos t)
      ≡ (if ltb (6 * suc k) t then some (pos (30 * second)) else none)
unfolding cleanup_backoff
cleanup_backoff_ahead k t p =
    let (low, high) = nearest_bounds (3 * suc k) t p in
    ahead_cases (nearest (3 * suc k) t) k t p (omega arith) (omega arith)
