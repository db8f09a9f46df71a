-- ===== src/Finalizer/Backoff.antt =====
-- internal/controller/finalizer.go: the delay before a failed cleanup is tried again. The float64
-- quotient of the code is the exact one here, rounded half away from zero.
use uptime_robot_operator.Prelude.{
  ℕ, zero, suc, ◌+◌, ◌*◌, ◌/◌, ◌^◌, Option, none, some, ltb, if◌then◌else◌,
}
use uptime_robot_operator.Prelude.Int.{ℤ, pos, negsuc}
use uptime_robot_operator.Retry.Delay.{second}

abbrev pub default_cleanup_timeout : ℤ
default_cleanup_timeout = pos (10 * 60 * second)

abbrev pub backoff_exponent : ℕ
backoff_exponent = 3

abbrev pub max_backoff_shift : ℕ
max_backoff_shift = 10

abbrev pub magnitude : ℤ → ℕ
magnitude (pos n) = n
magnitude (negsuc n) = suc n

-- a / b of magnitudes, to the nearest whole number, half up
abbrev pub nearest : ℕ → ℕ → ℕ
nearest a b = (2 * a + b) / (2 * b)

abbrev pub negate : ℕ → ℤ
negate zero = pos 0
negate (suc n) = negsuc n

abbrev pub signed : ℤ → ℤ → ℕ → ℤ
signed (pos a) (pos b) n = pos n
signed (negsuc a) (negsuc b) n = pos n
signed (pos a) (negsuc b) n = negate n
signed (negsuc a) (pos b) n = negate n

-- int(math.Round(float64(elapsed) / float64(timeout) * backoffExponent))
unfoldable pub backoff_shift : ℤ → ℤ → ℤ
backoff_shift elapsed timeout =
    signed elapsed timeout (nearest (backoff_exponent * magnitude elapsed) (magnitude timeout))

-- 30s * (1 << shift), at most 5 minutes
unfoldable pub shifted : ℕ → ℤ
shifted shift =
    let backoff =
      30 * second * 2 ^ (if ltb max_backoff_shift shift then max_backoff_shift else shift) in
    if ltb (5 * 60 * second) backoff then pos (5 * 60 * second) else pos backoff

-- The backoff: `none` is the panic of a shift by a negative count.
unfoldable pub cleanup_backoff : ℤ → ℤ → Option ℤ
unfolding backoff_shift shifted
cleanup_backoff elapsed timeout = elim (backoff_shift elapsed timeout) [
  | pos shift ↦ some (shifted shift)
  | negsuc n ↦ none
]
