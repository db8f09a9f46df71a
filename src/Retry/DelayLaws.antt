-- ===== src/Retry/DelayLaws.antt =====
-- Bounds and exact values of the delays of internal/uptimerobot/retry.go.
use Prim.Native.Nat.{min}
use uptime_robot_operator.Prelude.{
  ℕ, ◌+◌, ◌*◌, ◌^◌, ◌≤◌, ◌<◌, ◌≡◌, ◌∙◌, String, false, Option, none, some, arith, Bool-cases, inl,
  inr, lt→ltb, if◌then◌else◌,
}
use uptime_robot_operator.Prelude.Int.{ℤ, pos, ltb_ℤ, ◌≤ℤ◌}
use uptime_robot_operator.Text.{is_blank}
use uptime_robot_operator.Strconv.{atoi, itoa}
use uptime_robot_operator.Strconv.RoundTrip.{atoi-itoa, itoa-ne-blank}
use uptime_robot_operator.Retry.Delay.{
  second, cap, default_max_delay, mul64, parse_retry_after, Floats, calculate_backoff, second_delay,
  seconds_of, date_delay,
}

second_delay-le :
    (o : Option ℕ) (other : ℤ)
    → other ≤ℤ default_max_delay
    → second_delay o other ≤ℤ default_max_delay
second_delay-le none other h = h
second_delay-le (some n) other h = ground arith

date_delay-le : (o : Option ℤ) → date_delay o ≤ℤ default_max_delay
date_delay-le none = omega arith
date_delay-le (some d) = ground arith

-- Whatever the Retry-After header says, and whatever the clock, the delay read from it is at most
-- 60 seconds.
pub parse_retry_after-le :
    (until : String → Option ℤ) (header : String)
    → parse_retry_after until header ≤ℤ default_max_delay
unfolding parse_retry_after
parse_retry_after-le until header = elim (Bool-cases (is_blank header)) [
  | inl e ↦ rw e (omega arith)
  | inr e ↦ rw e (
      second_delay-le (seconds_of (atoi header)) (date_delay (until header))
        (date_delay-le (until header)))
]

seconds_of-pos : (n : ℕ) → 0 < n → seconds_of (some (pos n)) ≡ some n
seconds_of-pos n h = rw (lt→ltb 0 n h)

-- A header that holds the decimal digits of n seconds is read as the product that int64 arithmetic
-- gives, at most 60 seconds.
retry_after_product :
    (until : String → Option ℤ) (n : ℕ)
    → 0 < n
    → n < 2 ^ 63
    → parse_retry_after until (itoa (pos n))
      ≡ second_delay (some n) (date_delay (until (itoa (pos n))))
unfolding parse_retry_after
retry_after_product until n p b =
    rw (itoa-ne-blank (pos n)) (rw (atoi-itoa (pos n) b) (rw (lt→ltb 0 n p)))

-- A Retry-After header of n seconds, for n from 1 up to the largest number of seconds that a
-- time.Duration holds, gives a delay of n seconds, at most 60.
pub retry_after_seconds :
    (until : String → Option ℤ) (n : ℕ)
    → 0 < n
    → n ≤ 9223372036
    → parse_retry_after until (itoa (pos n)) ≡ pos (min n 60 * second)
retry_after_seconds until n p b =
    retry_after_product until n p (omega arith) ∙ unfold mul64 in ground arith

-- A Retry-After header of 18446744074 + k seconds, for k below 60, gives a delay of less than k + 1
-- seconds, not the 60 seconds of the cap: the product with a second wraps round.
pub retry_after_wraps :
    (until : String → Option ℤ) (k : ℕ)
    → k < 60
    → parse_retry_after until (itoa (pos (18446744074 + k))) ≡ pos (290448384 + k * second)
retry_after_wraps until k b =
    retry_after_product until (18446744074 + k) (omega arith) (omega arith)
    ∙ unfold mul64 in ground arith

-- Multiplication by a power of two is exact on float64 while both factors and the product keep to
-- the integers that the two types hold.
pub record IsExact (fl : Floats) : Type 1 where
  pub exact :
      (b n : ℕ)
      → b < 2 ^ 53
      → b * 2 ^ n < 2 ^ 63
      → Floats.to_int fl (Floats.mul fl (Floats.of_int fl (pos b)) (Floats.pow2 fl n))
        ≡ pos (b * 2 ^ n)

capped :
    (p m : ℕ)
    → (let d = cap (pos m) (pos p) in if ltb_ℤ d (pos 0) then pos 0 else d) ≡ pos (min p m)
capped p m = ground arith

module _ (fl : Floats) where
  -- The delay of a retry is never negative, whatever float64 arithmetic gives.
  pub calculate_backoff_nonneg :
      (attempt : ℕ) (base_delay max_delay : ℤ) (jitter_fraction random : Floats.Float64 fl)
      → pos 0 ≤ℤ calculate_backoff fl attempt base_delay max_delay jitter_fraction random
  unfolding calculate_backoff
  calculate_backoff_nonneg attempt base_delay max_delay jitter_fraction random = ground arith

  -- Without jitter the delay of attempt n is base * 2 ^ n, at most the maximum, where float64 is
  -- exact on powers of two.
  pub calculate_backoff_exact :
      (x : IsExact fl) (n b m : ℕ) (jitter_fraction random : Floats.Float64 fl)
      → Floats.is_positive fl jitter_fraction ≡ false
      → b < 2 ^ 53
      → b * 2 ^ n < 2 ^ 63
      → calculate_backoff fl n (pos b) (pos m) jitter_fraction random ≡ pos (min (b * 2 ^ n) m)
  unfolding calculate_backoff
  calculate_backoff_exact x n b m jitter_fraction random off small fits =
      rw off (rw (x.exact b n small fits) (capped (b * 2 ^ n) m))
