-- ===== src/Windows/Duration.antt =====
-- internal/controller/maintenancewindow_controller.go: the duration of a window in minutes,
-- int(math.Ceil(d.Minutes())) and at least 1. Minutes adds the whole minutes and the quotient of the
-- rest by a minute in float64.
pub mod Laws
use uptime_robot_operator.Prelude.{
  ℕ, zero, suc, ◌+◌, ◌*◌, ◌/◌, ◌%◌, Bool, ◌&&◌, ◌||◌, ltb, ◌==◌, if◌then◌else◌,
}
use uptime_robot_operator.Prelude.Int.{ℤ, pos, negsuc}
use uptime_robot_operator.Request.Fields.{minute}

-- How many half units in the last place of n a minute is, for n whole minutes: 2 ^ 53 for n = 1, and
-- half of it at each power of two. `p` is the number for the part of n that is left.
unfoldable pub half_units : ℕ → ℕ → ℕ → ℕ
half_units zero p n = p
half_units (suc f) p n = let rest = half_units f (p / 2) (n / 2) in if ltb n 2 then p else rest

-- The sum of n whole minutes and of r nanoseconds, less than a minute, is rounded to n: the rest is less
-- than half a unit in the last place of n. A tie needs a power of two that 60 * 10 ^ 9 is not a multiple
-- of. The largest duration has less than 2 ^ 28 minutes, so that 27 rounds are enough.
unfoldable pub is_absorbed : ℕ → ℕ → Bool
is_absorbed n r = ltb 0 n && ltb (r * half_units 27 9_007_199_254_740_992 n) minute

-- the least whole number of minutes that is not less than d.Minutes()
unfoldable pub ceil_minutes : ℕ → ℕ
ceil_minutes d =
    let n = d / minute in let r = d % minute in if r == 0 || is_absorbed n r then n else n + 1

unfoldable pub at_least_one : ℕ → ℕ
at_least_one n = if ltb n 1 then 1 else n

-- The minutes of a negative duration are rounded up to no more than 0.
unfoldable pub duration_minutes : ℤ → ℤ
duration_minutes (pos d) = pos (at_least_one (ceil_minutes d))
duration_minutes (negsuc d) = pos 1
