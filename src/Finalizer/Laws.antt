-- ===== src/Finalizer/Laws.antt =====
-- The contract of HandleFinalizerCleanup (internal/controller/finalizer.go).
use uptime_robot_operator.Prelude.{
  ℕ, ◌≡◌, inl, inr, refl, ◌∙◌, ap, String, Bool, true, false, ◌||◌, Option, none, some, List, arith,
  if◌then◌else◌, Bool-cases, same_text_refl,
}
use uptime_robot_operator.Prelude.Int.{ℤ, ltb_ℤ, ◌-ℤ◌}
use uptime_robot_operator.Failure.{Failure}
use uptime_robot_operator.Conditions.{
  Condition, condition_true, find_condition, set_condition, type_deleting,
}
use uptime_robot_operator.Conditions.Laws.{written, find_condition-set_condition}
use uptime_robot_operator.Finalizer.Annotations.{lookup, TimeFormat}
use uptime_robot_operator.Finalizer.Backoff.{cleanup_backoff}
use uptime_robot_operator.Finalizer.Cleanup.{
  CleanupOptions, Outcome, returned, panicked, is_skipped, elapsed, timeout_or_default, skipped,
  timed_out, concluded, handle_finalizer_cleanup, cleanup_start_time_annotation, start_of,
  parsed_or, failed_with,
}

-- The caller takes the finalizer off on a success and on a forced removal.
abbrev pub releases : Outcome → Bool
releases (returned h) = h.result.success || h.result.force_remove
releases panicked = false

abbrev pub succeeded : Option Failure → Bool
succeeded none = true
succeeded (some e) = false

abbrev pub is_forced : Outcome → Bool
is_forced (returned h) = h.result.force_remove
is_forced panicked = false

module _ (time : TimeFormat) (clock : ℕ → ℤ) (opts : CleanupOptions) where
  abbrev limit : ℤ
  limit = timeout_or_default opts.cleanup_timeout

  releases-concluded :
      (error : Option Failure) → releases (concluded time clock opts error) ≡ succeeded error
  unfolding concluded
  releases-concluded none = refl
  releases-concluded (some e) = ground arith

  is_forced-concluded :
      (error : Option Failure) → is_forced (concluded time clock opts error) ≡ false
  unfolding concluded
  is_forced-concluded none = refl
  is_forced-concluded (some e) = ground arith

  elapsed_of_malformed :
      {text : String}
      → lookup cleanup_start_time_annotation opts.annotations ≡ some text
      → time.parse text ≡ none
      → elapsed time clock opts ≡ clock 1 -ℤ clock 0
  unfolding elapsed
  elapsed_of_malformed f b =
      ap (λ (o : Option String). clock 1 -ℤ start_of time clock opts (clock 0) o) f
      ∙ ap (λ (o : Option ℤ). clock 1 -ℤ parsed_or time clock opts (clock 0) o) b

  module _ {ℓ} {W : Type ℓ} (cleanup : W → Option Failure × W) (w : W) where
    -- The finalizer is released exactly if the skip annotation is set, the timeout has passed, or
    -- the cleanup has run without an error; and the cleanup runs, once, exactly if the annotation
    -- is not set and the timeout has not passed.
    pub releases-handle_finalizer_cleanup :
        (releases (handle_finalizer_cleanup time clock opts cleanup w).0 ≡ (
          if is_skipped opts
          then true
          else if ltb_ℤ (timeout_or_default opts.cleanup_timeout) (elapsed time clock opts)
          then true
          else succeeded (cleanup w).0))
        × ((handle_finalizer_cleanup time clock opts cleanup w).1 ≡ (
            if is_skipped opts
            then w
            else if ltb_ℤ (timeout_or_default opts.cleanup_timeout) (elapsed time clock opts)
            then w
            else (cleanup w).1))
    unfolding handle_finalizer_cleanup skipped timed_out
    releases-handle_finalizer_cleanup = elim (Bool-cases (is_skipped opts)) [
      | inl e ↦ rw e (refl, refl)
      | inr e ↦ elim (Bool-cases (ltb_ℤ limit (elapsed time clock opts))) [
        | inl t ↦ rw e (rw t (refl, refl))
        | inr t ↦ rw e (rw t (releases-concluded (cleanup w).0, refl))
      ]
    ]

    -- A removal is forced exactly if the skip annotation is set or the timeout has passed.
    pub is_forced-handle_finalizer_cleanup :
        is_forced (handle_finalizer_cleanup time clock opts cleanup w).0 ≡ (
          is_skipped opts
          || ltb_ℤ (timeout_or_default opts.cleanup_timeout) (elapsed time clock opts))
    unfolding handle_finalizer_cleanup skipped timed_out
    is_forced-handle_finalizer_cleanup = elim (Bool-cases (is_skipped opts)) [
      | inl e ↦ rw e
      | inr e ↦ elim (Bool-cases (ltb_ℤ limit (elapsed time clock opts))) [
        | inl t ↦ rw e (rw t)
        | inr t ↦ rw e (rw t (is_forced-concluded (cleanup w).0))
      ]
    ]

    -- Where the recorded start of the cleanup is no time, every call counts from its own first
    -- reading of the clock: as long as no single call is longer than the timeout, a cleanup that
    -- fails is never given up.
    pub malformed_start_never_times_out :
        {text : String} {e : Failure}
        → is_skipped opts ≡ false
        → lookup cleanup_start_time_annotation opts.annotations ≡ some text
        → time.parse text ≡ none
        → ltb_ℤ (timeout_or_default opts.cleanup_timeout) (clock 1 -ℤ clock 0) ≡ false
        → (cleanup w).0 ≡ some e
        → releases (handle_finalizer_cleanup time clock opts cleanup w).0 ≡ false
    malformed_start_never_times_out k found bad short fails =
        rw releases-handle_finalizer_cleanup.0
          (rw k (rw (elapsed_of_malformed found bad) (rw short (rw fails))))

abbrev read_message : Option Condition → Option String
read_message none = none
read_message (some c) = some c.message

-- What a client reads at the Deleting condition is the message of the result.
abbrev pub IsReported : Outcome → Type 0
IsReported (returned h) =
    read_message (find_condition type_deleting h.conditions) ≡ some h.result.message
IsReported panicked = Unit

message_set :
    (reason message : String) (generation now : ℤ) (cs : List Condition)
    → read_message (
        find_condition type_deleting
          (set_condition type_deleting condition_true reason message generation now cs))
      ≡ some message
message_set reason message generation now cs =
    rw
      (find_condition-set_condition type_deleting condition_true reason message generation now cs
        type_deleting)
      (rw (same_text_refl type_deleting) (either (find_condition type_deleting cs)))
  where
    either :
        (o : Option Condition)
        → some (written type_deleting condition_true reason message generation now o).message
          ≡ some message
    either none = refl
    either (some c) = refl

module _ (time : TimeFormat) (clock : ℕ → ℤ) (opts : CleanupOptions) where
  IsReported-concluded : (error : Option Failure) → IsReported (concluded time clock opts error)
  unfolding concluded
  IsReported-concluded none = message_set _ _ _ _ _
  IsReported-concluded (some e) =
      failed e (cleanup_backoff (elapsed time clock opts) (limit time clock opts))
    where
      failed : (e : Failure) (o : Option ℤ) → IsReported (failed_with time clock opts e o)
      failed e none = tt
      failed e (some b) = message_set _ _ _ _ _

  -- Whatever comes of the cleanup, the Deleting condition that a client reads afterwards has the
  -- message of the result.
  pub handle_finalizer_cleanup-IsReported {ℓ} :
      {W : Type ℓ} (cleanup : W → Option Failure × W) (w : W)
      → IsReported (handle_finalizer_cleanup time clock opts cleanup w).0
  unfolding handle_finalizer_cleanup skipped timed_out
  handle_finalizer_cleanup-IsReported cleanup w = elim (Bool-cases (is_skipped opts)) [
    | inl e ↦ rw e (message_set _ _ _ _ _)
    | inr e ↦ elim (Bool-cases (ltb_ℤ (limit time clock opts) (elapsed time clock opts))) [
      | inl t ↦ rw e (rw t (message_set _ _ _ _ _))
      | inr t ↦ rw e (rw t (IsReported-concluded (cleanup w).0))
    ]
  ]
