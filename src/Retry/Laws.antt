-- ===== src/Retry/Laws.antt =====
-- Laws of the loop of doWithRetry in internal/uptimerobot/retry.go.
use native.Mathlib.Nat.{add-zero, zero-add}
use mathlib.Core.Path.{subst}
use uptime_robot_operator.Prelude.{
  ℕ, zero, suc, ◌+◌, ◌-◌, ◌≤◌, ◌<◌, ◌≡◌, ◌∙◌, refl, sym, Bool, true, false, Option, none, some, [],
  length, arith, ltb, leb, if◌then◌else◌, Bool-cases, inl, inr, ap,
}
use uptime_robot_operator.Prelude.Int.{ℤ}
use uptime_robot_operator.Failure.{Failure, Result, ok, err}
use uptime_robot_operator.Retry.Delay.{Floats}
use uptime_robot_operator.Retry.Attempts.{
  Response, Outcome, answered, failed, is_retryable_status_code, is_retryable_error, status_error,
  exhausted, Step, returns, waits, Run, Settings, Wire, with_defaults, to_ℕ, response_delay,
  try_once, after_wait, round, attempts, do_with_retry, backoff,
}

-- an outcome after which the request is sent again
abbrev pub is_transient : Outcome → Bool
is_transient (answered r) = is_retryable_status_code r.status_code
is_transient (failed e) = is_retryable_error e

-- what a request comes to by an outcome after which it is not sent again
abbrev pub verdict : Outcome → Result Response
verdict (answered r) = if ltb r.status_code 400 then ok r else err (status_error r)
verdict (failed e) = err e.error

-- the error that an outcome leaves behind
abbrev pub error_of : Outcome → Failure
error_of (answered r) = status_error r
error_of (failed e) = e.error

retryable_code-ge :
    (r : Response) → is_retryable_status_code r.status_code ≡ true → ltb r.status_code 400 ≡ false
unfolding is_retryable_status_code
retryable_code-ge r h = ground arith

module _ (fl : Floats) where
  -- the server answers, the body can be read again, and the context is never cancelled
  pub record IsQuiet (w : Wire fl) : Type 0 where
    pub bodies : (k : ℕ) → w.get_body k ≡ none
    pub context : (k : ℕ) → w.cancelled k ≡ none

  module _ (w : Wire fl) (c : Settings fl) where
    below : (k : ℕ) → k < to_ℕ c.max_retries → leb (to_ℕ c.max_retries) k ≡ false
    below k b = ground arith

    beyond : (k : ℕ) → to_ℕ c.max_retries ≤ k → leb (to_ℕ c.max_retries) k ≡ true
    beyond k b = ground arith

    -- a final outcome returns at once
    try_once_final :
        (k : ℕ) (o : Outcome) → is_transient o ≡ false → try_once fl w c k o ≡ returns (verdict o)
    unfolding try_once
    try_once_final k (answered r) h = elim (Bool-cases (ltb r.status_code 400)) [
      | inl e ↦ rw e
      | inr e ↦ rw e (rw h)
    ]
    try_once_final k (failed e) h = rw h

    -- a transient one waits while attempts are left
    try_once_transient :
        (k : ℕ) (o : Outcome)
        → is_transient o ≡ true
        → k < to_ℕ c.max_retries
        → (d : ℤ) × (try_once fl w c k o ≡ waits d (error_of o))
    unfolding try_once
    try_once_transient k (answered r) h b =
        (response_delay fl w c k r, rw (retryable_code-ge r h) (rw h (rw (below k b))))
    try_once_transient k (failed e) h b = (backoff fl w c k, rw h (rw (below k b)))

    try_once_last :
        (k : ℕ) (o : Outcome)
        → is_transient o ≡ true
        → to_ℕ c.max_retries ≤ k
        → try_once fl w c k o ≡ returns (err (exhausted (some (error_of o))))
    unfolding try_once
    try_once_last k (answered r) h b = rw (retryable_code-ge r h) (rw h (rw (beyond k b)))
    try_once_last k (failed e) h b = rw h (rw (beyond k b))

    module _ (q : IsQuiet w) where
      attempts-returns :
          (left k : ℕ) (last : Option Failure) {r : Result Response}
          → try_once fl w c k (w.send k) ≡ returns r
          → attempts fl w c (suc left) k last ≡ record { result = r; sent = 1; delays = [] }
      unfolding attempts
      attempts-returns left k last h = rw (q.bodies k) (rw h)

      attempts-waits :
          (left k : ℕ) (last : Option Failure) {d : ℤ} {e : Failure}
          → try_once fl w c k (w.send k) ≡ waits d e
          → attempts fl w c (suc left) k last ≡ after_wait d (attempts fl w c left (k + 1) (some e))
      unfolding attempts
      attempts-waits left k last h = rw (q.bodies k) (rw h (rw (q.context k)))

      attempts_settle :
          (n left k : ℕ) (last : Option Failure)
          → n < left
          → k + n ≤ to_ℕ c.max_retries
          → ((j : ℕ) → j < n → is_transient (w.send (k + j)) ≡ true)
          → is_transient (w.send (k + n)) ≡ false
          → ((attempts fl w c left k last).result ≡ verdict (w.send (k + n)))
            × ((attempts fl w c left k last).sent ≡ suc n)
      attempts_settle n zero k last l b before final = absurd (omega arith)
      attempts_settle zero (suc left) k last l b before final =
          let o = attempts-returns left k last (
            try_once_final k (w.send k)
              (subst (λ (m : ℕ). is_transient (w.send m) ≡ false) (add-zero k) final)) in
          rw o (ap (λ (m : ℕ). verdict (w.send m)) (omega arith), refl)
      attempts_settle (suc n) (suc left) k last l b before final =
          let first =
            subst (λ (m : ℕ). is_transient (w.send m) ≡ true) (add-zero k)
              (before 0 (omega arith)) in
          let (d, step) = try_once_transient k (w.send k) first (omega arith) in
          let o = attempts-waits left k last step in
          let ih =
            attempts_settle n left (k + 1) (some (error_of (w.send k))) (omega arith) (omega arith)
              (λ j lt.
                subst (λ (m : ℕ). is_transient (w.send m) ≡ true) (shift j)
                  (before (suc j) (omega arith)))
              (subst (λ (m : ℕ). is_transient (w.send m) ≡ false) (shift n) final) in
          rw o (ih.0 ∙ ap (λ (m : ℕ). verdict (w.send m)) (sym (shift n)), ap suc ih.1)
        where
          shift : (j : ℕ) → k + suc j ≡ k + 1 + j
          shift j = omega arith

      attempts_exhaust :
          (left k : ℕ) (last : Option Failure)
          → k + left ≡ to_ℕ c.max_retries
          → ((j : ℕ) → j < suc left → is_transient (w.send (k + j)) ≡ true)
          → let run = attempts fl w c (suc left) k last in
            (run.result ≡ err (exhausted (some (error_of (w.send (to_ℕ c.max_retries))))))
            × (run.sent ≡ suc left)
      attempts_exhaust zero k last b all =
          let here =
            subst (λ (m : ℕ). is_transient (w.send m) ≡ true) (add-zero k) (all 0 (omega arith)) in
          let o = attempts-returns zero k last (try_once_last k (w.send k) here (omega arith)) in
          rw o (
            ap {B = Result Response} (λ (m : ℕ). err (exhausted (some (error_of (w.send m)))))
                (omega arith),
            refl,
          )
      attempts_exhaust (suc left) k last b all =
          let here =
            subst (λ (m : ℕ). is_transient (w.send m) ≡ true) (add-zero k) (all 0 (omega arith)) in
          let (d, step) = try_once_transient k (w.send k) here (omega arith) in
          let o = attempts-waits (suc left) k last step in
          let ih = attempts_exhaust left (k + 1) (some (error_of (w.send k))) (omega arith) (λ j lt.
            subst (λ (m : ℕ). is_transient (w.send m) ≡ true) (shift j)
              (all (suc j) (omega arith))) in
          rw o (ih.0, ap suc ih.1)
        where
          shift : (j : ℕ) → k + suc j ≡ k + 1 + j
          shift j = omega arith

    -- every attempt but the last is followed by a wait
    attempts_bound :
        (left k : ℕ) (last : Option Failure)
        → let run = attempts fl w c left k last in
          (run.sent ≤ left) × (length run.delays ≤ run.sent)
    unfolding attempts
    attempts_bound zero k last = omega arith
    attempts_bound (suc left) k last =
        grind (arith, λ (e : Failure). attempts_bound left (k + 1) (some e))

    try_once_ok :
        (k : ℕ) (o : Outcome) (r : Response)
        → try_once fl w c k o ≡ returns (ok r)
        → (o ≡ answered r) × (ltb r.status_code 400 ≡ true)
    unfolding try_once
    try_once_ok k (answered a) r h = ground arith
    try_once_ok k (failed e) r h = ground arith

    Sound : ℕ → Run → Response → Type 0
    Sound k run r =
        (0 < run.sent) × (w.send (k + (run.sent - 1)) ≡ answered r) × (ltb r.status_code 400 ≡ true)

    round-Sound :
        (k : ℕ) (body : Option Failure) (s : Step) (x : Option Failure) (rest : Failure → Run)
        (r : Response)
        → try_once fl w c k (w.send k) ≡ s
        → ((e : Failure) → (rest e).result ≡ ok r → Sound (k + 1) (rest e) r)
        → (round body s x rest).result ≡ ok r
        → Sound k (round body s x rest) r
    unfolding round Sound
    round-Sound k (some e) s x rest r st ih h = cc
    round-Sound k none (returns a) x rest r st ih h =
        let hit = try_once_ok k (w.send k) r (rw st (ap returns h)) in
        (omega arith, ap w.send (omega arith) ∙ hit.0, hit.1)
    round-Sound k none (waits d e) (some ctx) rest r st ih h = cc
    round-Sound k none (waits d e) none rest r st ih h =
        let later = ih e h in (omega arith, ap w.send (first_later later.0) ∙ later.1, later.2)
      where
        first_later : 0 < (rest e).sent → k + (suc (rest e).sent - 1) ≡ k + 1 + ((rest e).sent - 1)
        first_later p = omega arith

    attempts-Sound :
        (left k : ℕ) (last : Option Failure) (r : Response)
        → (attempts fl w c left k last).result ≡ ok r
        → Sound k (attempts fl w c left k last) r
    unfolding attempts
    attempts-Sound zero k last r h = cc
    attempts-Sound (suc left) k last r h =
        round-Sound k (w.get_body k) (try_once fl w c k (w.send k)) (w.cancelled k)
          (λ e. attempts fl w c left (k + 1) (some e)) r refl
          (λ e ih. attempts-Sound left (k + 1) (some e) r ih) h

  module _ (w : Wire fl) (given : Settings fl) where
    abbrev limit : ℕ
    limit = to_ℕ (with_defaults fl given).max_retries

    -- A request is sent at most once more than the retries allowed (with the default of five where
    -- the client sets none), and there are at most as many waits as requests.
    pub do_with_retry_bounds :
        ((do_with_retry fl w given).sent ≤ suc (to_ℕ (with_defaults fl given).max_retries))
        × (length (do_with_retry fl w given).delays ≤ (do_with_retry fl w given).sent)
    unfolding do_with_retry
    do_with_retry_bounds = attempts_bound w (with_defaults fl given) (suc limit) 0 none

    -- A response that is returned without an error is the server's answer to the last request
    -- sent, and its status is below 400.
    pub do_with_retry_sound :
        (r : Response)
        → (do_with_retry fl w given).result ≡ ok r
        → (0 < (do_with_retry fl w given).sent)
          × (w.send ((do_with_retry fl w given).sent - 1) ≡ answered r)
          × (ltb r.status_code 400 ≡ true)
    unfolding do_with_retry Sound
    do_with_retry_sound r h =
        let s = attempts-Sound w (with_defaults fl given) (suc limit) 0 none r h in
        (s.0, ap w.send (omega arith) ∙ s.1, s.2)

    abbrev run : Run
    run = do_with_retry fl w given

    module _ (q : IsQuiet w) where
      -- Where the context is not cancelled and the body can be read again: if the first n answers
      -- are transient, n is within the retries, and answer n is not transient, then n + 1 requests
      -- are sent and the result is what answer n stands for.
      pub do_with_retry_settles :
          (n : ℕ)
          → n ≤ to_ℕ (with_defaults fl given).max_retries
          → ((j : ℕ) → j < n → is_transient (w.send j) ≡ true)
          → is_transient (w.send n) ≡ false
          → ((do_with_retry fl w given).result ≡ verdict (w.send n))
            × ((do_with_retry fl w given).sent ≡ suc n)
      unfolding do_with_retry
      do_with_retry_settles n b before final =
          let c = with_defaults fl given in
          let at_n =
            subst (λ (m : ℕ). (run.result ≡ verdict (w.send m)) × (run.sent ≡ suc n))
              (zero-add n) in
          at_n (
            attempts_settle w c q n (suc (to_ℕ c.max_retries)) 0 none (omega arith) (omega arith)
              (λ j lt.
                subst (λ (m : ℕ). is_transient (w.send m) ≡ true) (sym (zero-add j)) (before j lt))
              (subst (λ (m : ℕ). is_transient (w.send m) ≡ false) (sym (zero-add n)) final))

      -- Where the context is not cancelled and the body can be read again: if every answer within
      -- the retries is transient, one request more than the retries is sent, and the error is that
      -- the retries are exhausted, quoting the last failure.
      pub do_with_retry_exhausts :
          ((j : ℕ) → j ≤ to_ℕ (with_defaults fl given).max_retries → is_transient (w.send j) ≡ true)
          → ((do_with_retry fl w given).result
              ≡ err (
                  exhausted (some (error_of (w.send (to_ℕ (with_defaults fl given).max_retries))))))
            × ((do_with_retry fl w given).sent ≡ suc (to_ℕ (with_defaults fl given).max_retries))
      unfolding do_with_retry
      do_with_retry_exhausts all =
          let c = with_defaults fl given in
          attempts_exhaust w c q (to_ℕ c.max_retries) 0 none (zero-add (to_ℕ c.max_retries))
            (λ j lt.
              subst (λ (m : ℕ). is_transient (w.send m) ≡ true) (sym (zero-add j))
                (all j (omega arith)))
