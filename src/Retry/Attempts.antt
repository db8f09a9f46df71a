-- ===== src/Retry/Attempts.antt =====
-- internal/uptimerobot/retry.go: the loop of doWithRetry. The answers of the network, of the
-- random source and of the context are functions of the attempt.
use uptime_robot_operator.Prelude.{
  ℕ, zero, suc, ◌+◌, String, Bool, false, ◌&&◌, ◌||◌, not, Option, none, some, List, [], ◌∷◌, ltb,
  leb, ◌==◌, if◌then◌else◌,
}
use uptime_robot_operator.Prelude.Int.{ℤ, pos, negsuc, ltb_ℤ}
use uptime_robot_operator.Text.{contains, concat, is_blank}
use uptime_robot_operator.Failure.{
  Failure, Result, ok, err, failure, wrap, err_status, err_max_retries_exceeded,
}
use uptime_robot_operator.Retry.Delay.{
  Floats, calculate_backoff, parse_retry_after, default_max_retries, default_base_delay,
  default_max_delay,
}

-- http.Response, with what io.ReadAll makes of the body
pub record Response : Type 0 where
  pub status_code : ℕ
  pub status : String
  pub retry_after : String
  pub body : Result String

-- an error of http.Client.Do; `timeout` is that of net.Error, false for any other error
pub record NetError : Type 0 where
  pub error : Failure
  pub timeout : Bool

pub data Outcome : Type 0 where
  answered : Response → Outcome
  failed : NetError → Outcome

-- isRetryableStatusCode
unfoldable pub is_retryable_status_code : ℕ → Bool
is_retryable_status_code code =
    code == 429 || code == 500 || code == 502 || code == 503 || code == 504

-- isRetryableError
unfoldable pub is_retryable_error : NetError → Bool
is_retryable_error e =
    let message = e.error.message in
    e.timeout
    || contains message "connection refused"
    || contains message "connection reset"
    || contains message "broken pipe"
    || contains message "EOF"
    || contains message "unexpected EOF"

-- the error that a status of 400 or more stands for
unfoldable pub status_error : Response → Failure
status_error r = elim r.body [
  | ok body ↦
      failure (concat ("error code from Uptime Robot API: " ∷ r.status ∷ " - " ∷ body ∷ []))
        (err_status ∷ [])
  | err e ↦
      failure
        (concat (
          "error code from Uptime Robot API: " ∷ r.status ∷ " - (failed to read body: " ∷ e.message
          ∷ ")" ∷ []))
        (err_status ∷ [])
]

-- fmt.Errorf("%w: %v", ErrMaxRetriesExceeded, lastErr): the last error is quoted, not wrapped.
unfoldable pub exhausted : Option Failure → Failure
exhausted none = failure "max retry attempts exceeded" (err_max_retries_exceeded ∷ [])
exhausted (some last) =
    failure (concat ("max retry attempts exceeded: " ∷ last.message ∷ []))
      (err_max_retries_exceeded ∷ [])

-- what one attempt comes to
pub data Step : Type 0 where
  returns : Result Response → Step
  waits : ℤ → Failure → Step

pub record Run : Type 0 where
  pub result : Result Response
  pub sent : ℕ
  pub delays : List ℤ

abbrev pub after_wait : ℤ → Run → Run
after_wait delay rest = record {
  result = rest.result;
  sent = suc rest.sent;
  delays = delay ∷ rest.delays;
}

-- One round of the loop: the body of the request, the attempt, the wait that the context may
-- cancel, and the rounds after it.
unfoldable pub round : Option Failure → Step → Option Failure → (Failure → Run) → Run
round (some e) step cancelled rest = record {
  result = err (wrap "failed to get request body for retry: " e);
  sent = 0;
  delays = [];
}
round none (returns r) cancelled rest = record { result = r; sent = 1; delays = [] }
round none (waits delay e) (some ctx) rest = record {
  result = err ctx;
  sent = 1;
  delays = delay ∷ [];
}
round none (waits delay e) none rest = after_wait delay (rest e)

abbrev pub at_least_one : ℤ → ℤ → ℤ
at_least_one given default = if ltb_ℤ (pos 0) given then given else default

abbrev pub to_ℕ : ℤ → ℕ
to_ℕ (pos n) = n
to_ℕ (negsuc n) = 0

abbrev pub is_zero : ℤ → Bool
is_zero (pos n) = n == 0
is_zero (negsuc n) = false

module _ (fl : Floats) where
  open fl use {Float64, is_negative, default_jitter_fraction}

  -- the fields of Client that the loop reads
  pub record Settings : Type 0 where
    pub max_retries : ℤ
    pub base_delay : ℤ
    pub max_delay : ℤ
    pub jitter_fraction : Float64

  -- what is outside of the program: the server, the clock, the random source, the context
  pub record Wire : Type 0 where
    pub get_body : ℕ → Option Failure
    pub send : ℕ → Outcome
    pub until : ℕ → String → Option ℤ
    pub random : ℕ → Float64
    pub cancelled : ℕ → Option Failure

  -- the defaults at the top of doWithRetry
  unfoldable pub with_defaults : Settings → Settings
  with_defaults c = record {
    max_retries = at_least_one c.max_retries default_max_retries;
    base_delay = at_least_one c.base_delay default_base_delay;
    max_delay = at_least_one c.max_delay default_max_delay;
    jitter_fraction =
        if is_negative c.jitter_fraction then default_jitter_fraction else c.jitter_fraction;
  }

  module _ (w : Wire) (c : Settings) where
    unfoldable pub backoff : ℕ → ℤ
    backoff attempt =
        calculate_backoff fl attempt c.base_delay c.max_delay c.jitter_fraction (w.random attempt)

    -- the Retry-After header counts on a 429 only
    hinted : ℕ → Response → ℤ
    hinted attempt r =
        if r.status_code == 429 && not (is_blank r.retry_after)
        then (let parsed = parse_retry_after (w.until attempt) r.retry_after in
            if ltb_ℤ (pos 0) parsed then parsed else pos 0)
        else pos 0

    unfoldable pub response_delay : ℕ → Response → ℤ
    unfolding backoff hinted
    response_delay attempt r =
        let delay = hinted attempt r in if is_zero delay then backoff attempt else delay

    -- not retryable, out of attempts, or a wait
    unfoldable pub retry : ℕ → Bool → Failure → ℤ → Step
    retry attempt should_retry last_err delay =
        if not should_retry
        then returns (err last_err)
        else if leb (to_ℕ c.max_retries) attempt
        then returns (err (exhausted (some last_err)))
        else waits delay last_err

    -- one round of the loop, up to the wait
    unfoldable pub try_once : ℕ → Outcome → Step
    unfolding retry response_delay backoff
    try_once attempt (answered r) =
        if ltb r.status_code 400
        then returns (ok r)
        else retry attempt (is_retryable_status_code r.status_code) (status_error r)
            (response_delay attempt r)
    try_once attempt (failed e) = retry attempt (is_retryable_error e) e.error (backoff attempt)

    -- The loop: `left` rounds remain before `attempt <= maxRetries` fails.
    unfoldable pub attempts : ℕ → ℕ → Option Failure → Run
    unfolding round
    attempts zero attempt last_err = record {
      result = err (exhausted last_err);
      sent = 0;
      delays = [];
    }
    attempts (suc left) attempt last_err =
        round (w.get_body attempt) (try_once attempt (w.send attempt)) (w.cancelled attempt)
          λ e. attempts left (attempt + 1) (some e)

  -- doWithRetry
  unfoldable pub do_with_retry : Wire → Settings → Run
  unfolding with_defaults
  do_with_retry w given =
      let c = with_defaults given in attempts w c (suc (to_ℕ c.max_retries)) 0 none
