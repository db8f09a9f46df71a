-- ===== src/Finalizer/Cleanup.antt =====
-- internal/controller/finalizer.go: HandleFinalizerCleanup. The cleanup is an operation on the
-- world W that it is called in; `clock k` is the k-th reading of the clock.
use uptime_robot_operator.Prelude.{
  ℕ, zero, suc, String, Bool, true, false, Option, none, some, List, [], ◌∷◌, same_text,
  if◌then◌else◌,
}
use uptime_robot_operator.Prelude.Int.{ℤ, pos, negsuc, ltb_ℤ, ◌-ℤ◌}
use uptime_robot_operator.Text.{concat}
use uptime_robot_operator.Failure.{Failure}
use uptime_robot_operator.Conditions.{Condition, condition_true, type_deleting, set_condition}
use uptime_robot_operator.Finalizer.Annotations.{Annotations, lookup, TimeFormat}
use uptime_robot_operator.Finalizer.Backoff.{default_cleanup_timeout, cleanup_backoff}

abbrev pub skip_cleanup_annotation : String
skip_cleanup_annotation = "uptimerobot.com/skip-cleanup"

abbrev pub cleanup_start_time_annotation : String
cleanup_start_time_annotation = "uptimerobot.com/cleanup-start-time"

abbrev pub reason_cleanup_started : String
reason_cleanup_started = "CleanupStarted"

abbrev pub reason_cleanup_in_progress : String
reason_cleanup_in_progress = "CleanupInProgress"

abbrev pub reason_cleanup_success : String
reason_cleanup_success = "CleanupSuccess"

abbrev pub reason_cleanup_skipped : String
reason_cleanup_skipped = "CleanupSkipped"

abbrev pub reason_cleanup_timeout : String
reason_cleanup_timeout = "CleanupTimeout"

abbrev pub reason_cleanup_error : String
reason_cleanup_error = "CleanupError"

pub record CleanupResult : Type 0 where
  pub success : Bool
  pub force_remove : Bool
  pub requeue_after : ℤ
  pub message : String

-- a Kubernetes event: its type, reason and message
pub record Event : Type 0 where
  pub kind : String
  pub reason : String
  pub message : String

-- CleanupOptions, less the cleanup function
pub record CleanupOptions : Type 0 where
  pub annotations : Annotations
  pub conditions : List Condition
  pub observed_generation : ℤ
  pub has_recorder : Bool
  pub cleanup_timeout : ℤ

pub record Handled : Type 0 where
  pub result : CleanupResult
  pub error : Option Failure
  pub conditions : List Condition
  pub events : List Event

pub data Outcome : Type 0 where
  returned : Handled → Outcome
  panicked : Outcome

abbrev pub event_if : Bool → String → String → String → List Event
event_if b kind reason message =
    if b then record { kind = kind; reason = reason; message = message } ∷ [] else []

abbrev pub is_true : Option String → Bool
is_true none = false
is_true (some v) = same_text v "true"

-- the skip-cleanup annotation has the value "true"
unfoldable pub is_skipped : CleanupOptions → Bool
is_skipped opts = is_true (lookup skip_cleanup_annotation opts.annotations)

abbrev pub timeout_or_default : ℤ → ℤ
timeout_or_default (pos zero) = default_cleanup_timeout
timeout_or_default (pos (suc n)) = pos (suc n)
timeout_or_default (negsuc n) = negsuc n

module _ (time : TimeFormat) (clock : ℕ → ℤ) (opts : CleanupOptions) where
  abbrev pub parsed_or : ℤ → Option ℤ → ℤ
  parsed_or now none = now
  parsed_or now (some t) = t

  abbrev pub start_of : ℤ → Option String → ℤ
  start_of now none = now
  start_of now (some text) = parsed_or now (time.parse text)

  -- the start of the cleanup: that of the annotation, or now where it is missing or no time
  unfoldable pub start_time : ℤ
  start_time = start_of (clock 0) (lookup cleanup_start_time_annotation opts.annotations)

  unfoldable pub elapsed : ℤ
  unfolding start_time ◌-ℤ◌
  elapsed = clock 1 -ℤ start_time

  abbrev timeout : ℤ
  timeout = timeout_or_default opts.cleanup_timeout

  -- the Deleting condition, set at reading k of the clock
  abbrev deleting : ℕ → String → String → List Condition → List Condition
  deleting k reason message =
      set_condition type_deleting condition_true reason message opts.observed_generation (clock k)

  abbrev report :
      ℕ → String → String → String → CleanupResult → Option Failure → List Condition → Outcome
  report k kind reason message result error conditions = returned (record {
    result = result;
    error = error;
    conditions = deleting k reason message conditions;
    events = event_if opts.has_recorder kind reason message;
  })

  unfoldable pub skipped : Outcome
  skipped =
      let msg : String = "Cleanup skipped due to skip-cleanup annotation" in
      report 0 "Warning" reason_cleanup_skipped msg
        (record { success = true; force_remove = true; requeue_after = pos 0; message = msg }) none
        opts.conditions

  unfoldable pub timed_out : Outcome
  timed_out =
      let msg : String =
        concat
          ("Cleanup timed out after " ∷ time.show timeout ∷ ", force-removing finalizer" ∷ []) in
      report 2 "Warning" reason_cleanup_timeout msg
        (record { success = false; force_remove = true; requeue_after = pos 0; message = msg }) none
        opts.conditions

  -- the condition that stands while the cleanup runs
  unfoldable pub in_progress : List Condition
  unfolding elapsed
  in_progress =
      deleting 2 reason_cleanup_in_progress
        (concat (
          "Cleanup in progress (elapsed: "
          ∷ time.show_rounded elapsed
          ∷ ", timeout: "
          ∷ time.show timeout
          ∷ ")"
          ∷ []))
        opts.conditions

  -- a failed cleanup, by its backoff
  unfoldable pub failed_with : Failure → Option ℤ → Outcome
  unfolding in_progress
  failed_with e none = panicked
  failed_with e (some backoff) =
      let msg : String = concat (
        "Cleanup failed: "
        ∷ e.message
        ∷ " (will retry in "
        ∷ time.show_rounded backoff
        ∷ ")"
        ∷ []) in
      report 3 "Warning" reason_cleanup_error msg
        (record { success = false; force_remove = false; requeue_after = backoff; message = msg })
        (some e) in_progress

  -- what follows the cleanup
  unfoldable pub concluded : Option Failure → Outcome
  unfolding in_progress failed_with
  concluded none =
      let msg : String = "Cleanup completed successfully" in
      report 3 "Normal" reason_cleanup_success msg
        (record { success = true; force_remove = false; requeue_after = pos 0; message = msg }) none
        in_progress
  concluded (some e) = failed_with e (cleanup_backoff elapsed timeout)

  -- HandleFinalizerCleanup
  unfoldable pub handle_finalizer_cleanup {ℓ} :
      {W : Type ℓ} → (W → Option Failure × W) → W → Outcome × W
  handle_finalizer_cleanup cleanup w =
      if is_skipped opts
      then (skipped, w)
      else if ltb_ℤ timeout elapsed
      then (timed_out, w)
      else (let (error, w') = cleanup w in (concluded error, w'))
