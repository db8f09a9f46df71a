-- ===== src/Tests/RetryTests.antt =====
-- Tests of the model of internal/uptimerobot/retry.go.
use uptime_robot_operator.Prelude.{
  ℕ, zero, suc, ◌*◌, ◌^◌, ◌≤◌, ◌<◌, ◌≡◌, refl, String, true, false, Option, none, some, [], ◌∷◌,
  arith, ltb, if◌then◌else◌, same_text,
}
use uptime_robot_operator.Prelude.Int.{ℤ, pos, ltb_ℤ, ◌+ℤ◌, ◌-ℤ◌, ◌*ℤ◌}
use uptime_robot_operator.Failure.{ok, err}
use uptime_robot_operator.Retry.Delay.{Floats, second, calculate_backoff}
use uptime_robot_operator.Retry.DelayLaws.{IsExact}
use uptime_robot_operator.Retry.Attempts.{
  Response, answered, Wire, Settings, do_with_retry, exhausted, with_defaults, to_ℕ, attempts,
  try_once, is_retryable_status_code,
}
use uptime_robot_operator.Retry.Laws.{
  IsQuiet, is_transient, verdict, error_of, do_with_retry_settles, do_with_retry_exhausts,
}

-- whole numbers for floats
abbrev whole : Floats
whole = record {
  Float64 = ℤ;
  of_int = λ n. n;
  to_int = λ x. x;
  add = ◌+ℤ◌;
  sub = ◌-ℤ◌;
  mul = ◌*ℤ◌;
  pow2 = λ n. pos (2 ^ n);
  is_positive = λ x. ltb_ℤ (pos 0) x;
  is_negative = λ x. ltb_ℤ x (pos 0);
  default_jitter_fraction = pos 0;
}

product_exact : (b p : ℕ) → pos b *ℤ pos p ≡ pos (b * p)
unfolding ◌*ℤ◌
product_exact b p = ground arith

whole-IsExact : IsExact whole
whole-IsExact = record { exact = λ b n _ _. product_exact b (2 ^ n) }

abbrev no_date : String → Option ℤ
no_date s = none

abbrev reply : ℕ → Response
reply code = record { status_code = code; status = "status"; retry_after = ""; body = ok "text" }

-- The server is busy for the first two requests.
abbrev busy_twice : Wire whole
busy_twice = record {
  get_body = λ k. none;
  send = λ k. if ltb k 2 then answered (reply 503) else answered (reply 200);
  until = λ k s. none;
  random = λ k. pos 0;
  cancelled = λ k. none;
}

abbrev always_busy : Wire whole
always_busy = record {
  get_body = λ k. none;
  send = λ k. answered (reply 503);
  until = λ k s. none;
  random = λ k. pos 0;
  cancelled = λ k. none;
}

abbrev unset : Settings whole
unset = record {
  max_retries = pos 0;
  base_delay = pos 0;
  max_delay = pos 0;
  jitter_fraction = pos 0;
}

busy_twice-run :
    let run = do_with_retry whole busy_twice unset in
    (run.result ≡ ok (reply 200))
    × (run.sent ≡ 3)
    × (run.delays ≡ pos second ∷ pos (2 * second) ∷ [])
unfolding do_with_retry attempts try_once ◌*ℤ◌ same_text is_retryable_status_code calculate_backoff
busy_twice-run = (refl, refl, refl)

IsQuiet-busy_twice : IsQuiet whole busy_twice
IsQuiet-busy_twice = record { bodies = λ k. refl; context = λ k. refl }

IsQuiet-always_busy : IsQuiet whole always_busy
IsQuiet-always_busy = record { bodies = λ k. refl; context = λ k. refl }

busy_before : (j : ℕ) → j < 2 → is_transient (busy_twice.send j) ≡ true
unfolding is_retryable_status_code
busy_before zero h = refl
busy_before (suc zero) h = refl
busy_before (suc (suc j)) h = absurd (omega arith)

final : is_transient (busy_twice.send 2) ≡ false
unfolding is_retryable_status_code
final = refl

within : 2 ≤ to_ℕ (with_defaults whole unset).max_retries
unfolding with_defaults
within = omega arith

do_with_retry_settles_example :
    ((do_with_retry whole busy_twice unset).result ≡ verdict (busy_twice.send 2))
    × ((do_with_retry whole busy_twice unset).sent ≡ 3)
do_with_retry_settles_example =
    do_with_retry_settles whole busy_twice unset IsQuiet-busy_twice 2 within busy_before final

busy_always : (j : ℕ) → is_transient (always_busy.send j) ≡ true
unfolding is_retryable_status_code
busy_always j = refl

do_with_retry_exhausts_example :
    ((do_with_retry whole always_busy unset).result
      ≡ err (
          exhausted
            (some (error_of (always_busy.send (to_ℕ (with_defaults whole unset).max_retries))))))
    × ((do_with_retry whole always_busy unset).sent
        ≡ suc (to_ℕ (with_defaults whole unset).max_retries))
do_with_retry_exhausts_example =
    do_with_retry_exhausts whole always_busy unset IsQuiet-always_busy (λ j _. busy_always j)
