-- ===== src/Retry/Delay.antt =====
-- internal/uptimerobot/retry.go: how long the client waits before it sends a request again.
use uptime_robot_operator.Prelude.{
  ℕ, ◌-◌, ◌*◌, ◌%◌, ◌^◌, String, Bool, Option, none, some, ltb, if◌then◌else◌,
}
use uptime_robot_operator.Prelude.Int.{ℤ, pos, negsuc, ltb_ℤ}
use uptime_robot_operator.Text.{is_blank}
use uptime_robot_operator.Strconv.{atoi}

abbrev pub second : ℕ
second = 1_000_000_000

abbrev pub default_max_retries : ℤ
default_max_retries = pos 5

abbrev pub default_base_delay : ℤ
default_base_delay = pos second

abbrev pub default_max_delay : ℤ
default_max_delay = pos (60 * second)

-- an unsigned bit pattern of 64 bits as the signed number that it stands for
abbrev pub signed64 : ℕ → ℤ
signed64 n = if ltb n (2 ^ 63) then pos n else negsuc (2 ^ 64 - n - 1)

-- the product of two int64 values, which wraps round
unfoldable pub mul64 : ℕ → ℕ → ℤ
mul64 a b = signed64 (a * b % 2 ^ 64)

abbrev pub cap : ℤ → ℤ → ℤ
cap limit delay = if ltb_ℤ limit delay then limit else delay

-- Atoi's answer, where it is a number above 0
abbrev pub seconds_of : Option ℤ → Option ℕ
seconds_of none = none
seconds_of (some (negsuc n)) = none
seconds_of (some (pos n)) = if ltb 0 n then some n else none

-- the HTTP-date branch: `until` is time.Until of the date, if the text is one
abbrev pub date_delay : Option ℤ → ℤ
date_delay none = pos 0
date_delay (some delay) = if ltb_ℤ delay (pos 0) then pos 0 else cap default_max_delay delay

abbrev pub second_delay : Option ℕ → ℤ → ℤ
second_delay none other = other
second_delay (some n) other = cap default_max_delay (mul64 n second)

-- parseRetryAfter; http.ParseTime and the clock are the argument `until`
unfoldable pub parse_retry_after : (String → Option ℤ) → String → ℤ
unfolding mul64
parse_retry_after until retry_after =
    if is_blank retry_after
    then pos 0
    else second_delay (seconds_of (atoi retry_after)) (date_delay (until retry_after))

-- float64, of which the program uses these operations
pub record Floats : Type 1 where
  pub Float64 : Type 0
  pub of_int : ℤ → Float64
  pub to_int : Float64 → ℤ
  pub add : Float64 → Float64 → Float64
  pub sub : Float64 → Float64 → Float64
  pub mul : Float64 → Float64 → Float64
  pub pow2 : ℕ → Float64
  pub is_positive : Float64 → Bool
  pub is_negative : Float64 → Bool
  pub default_jitter_fraction : Float64

module _ (fl : Floats) where
  open fl use {Float64, of_int, to_int, add, sub, mul, pow2, is_positive}

  -- the delay before the jitter
  unfoldable pub backoff_base : ℕ → ℤ → ℤ → ℤ
  backoff_base attempt base_delay max_delay =
      cap max_delay (to_int (mul (of_int base_delay) (pow2 attempt)))

  -- the jitter: `random` is the answer of rand.Float64()
  unfoldable pub with_jitter : Float64 → Float64 → ℤ → ℤ
  with_jitter jitter_fraction random delay =
      if is_positive jitter_fraction
      then (let jitter_range = mul (of_int delay) jitter_fraction in
          let jitter = mul (sub (mul random (of_int (pos 2))) (of_int (pos 1))) jitter_range in
          to_int (add (of_int delay) jitter))
      else delay

  -- calculateBackoff
  unfoldable pub calculate_backoff : ℕ → ℤ → ℤ → Float64 → Float64 → ℤ
  unfolding backoff_base with_jitter
  calculate_backoff attempt base_delay max_delay jitter_fraction random =
      let delay = with_jitter jitter_fraction random (backoff_base attempt base_delay max_delay) in
      if ltb_ℤ delay (pos 0) then pos 0 else delay
