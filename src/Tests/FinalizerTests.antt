-- ===== src/Tests/FinalizerTests.antt =====
-- Tests of the model of internal/controller/finalizer.go.
use uptime_robot_operator.Prelude.{
  ℕ, suc, ◌*◌, ◌≡◌, refl, true, false, Option, none, some, [], ◌∷◌, same_text, if◌then◌else◌,
}
use uptime_robot_operator.Prelude.Int.{ℤ, pos, ltb_ℤ, ◌-ℤ◌}
use uptime_robot_operator.Failure.{Failure, failure, Result, ok}
use uptime_robot_operator.Retry.Delay.{second}
use uptime_robot_operator.Finalizer.Annotations.{lookup, TimeFormat}
use uptime_robot_operator.Finalizer.Backoff.{cleanup_backoff, default_cleanup_timeout}
use uptime_robot_operator.Finalizer.Cleanup.{
  CleanupOptions, handle_finalizer_cleanup, is_skipped, elapsed, timeout_or_default,
  cleanup_start_time_annotation,
}
use uptime_robot_operator.Finalizer.Tracking.{
  Meta, Client, Retry, try_track, initialize_cleanup_tracking,
}
use uptime_robot_operator.Finalizer.Laws.{
  releases, succeeded, releases-handle_finalizer_cleanup, malformed_start_never_times_out,
}
use uptime_robot_operator.Finalizer.TrackingLaws.{IsRetry, IsStored}

-- a format that reads one text only
abbrev pub times : TimeFormat
times = record {
  parse = λ s. if same_text s "t0" then some (pos 0) else none;
  format = λ t. "t0";
  show = λ t. "10m0s";
  show_rounded = λ t. "1s";
}

abbrev ticks : ℕ → ℤ
ticks n = pos n

abbrev deleting : CleanupOptions
deleting = record {
  annotations = (cleanup_start_time_annotation, "soon") ∷ [];
  conditions = [];
  observed_generation = pos 4;
  has_recorder = true;
  cleanup_timeout = pos 0;
}

-- a cleanup that fails, and counts its calls
abbrev broken : ℕ → Option Failure × ℕ
broken n = (some (failure "503" []), suc n)

half_way : cleanup_backoff (pos (300 * second)) default_cleanup_timeout ≡ some (pos (120 * second))
unfolding cleanup_backoff
half_way = refl

releases-handle_finalizer_cleanup_example :
    (releases (handle_finalizer_cleanup times ticks deleting broken 0).0 ≡ (
      if is_skipped deleting
      then true
      else if ltb_ℤ (timeout_or_default (pos 0)) (elapsed times ticks deleting)
      then true
      else succeeded (broken 0).0))
    × ((handle_finalizer_cleanup times ticks deleting broken 0).1 ≡ (
        if is_skipped deleting
        then 0
        else if ltb_ℤ (timeout_or_default (pos 0)) (elapsed times ticks deleting)
        then 0
        else (broken 0).1))
releases-handle_finalizer_cleanup_example =
    releases-handle_finalizer_cleanup times ticks deleting broken 0

not_skipped : is_skipped deleting ≡ false
unfolding is_skipped lookup same_text
not_skipped = refl

soon_found : lookup cleanup_start_time_annotation deleting.annotations ≡ some "soon"
unfolding lookup same_text
soon_found = refl

soon_is_no_time : times.parse "soon" ≡ none
unfolding same_text
soon_is_no_time = refl

one_tick : ltb_ℤ (timeout_or_default (pos 0)) (ticks 1 -ℤ ticks 0) ≡ false
unfolding ◌-ℤ◌
one_tick = refl

malformed_start_never_times_out_example :
    releases (handle_finalizer_cleanup times ticks deleting broken 0).0 ≡ false
malformed_start_never_times_out_example =
    malformed_start_never_times_out times ticks deleting broken 0 not_skipped soon_found
      soon_is_no_time one_tick refl

-- a cluster that holds one object
abbrev cluster : Client Meta
cluster = record { get = λ w. (ok w, w); update = λ m w. (ok m, m); now = λ w. pos 5 }

abbrev try_once : Retry Meta
try_once f s = f s

try_once-IsRetry : IsRetry try_once
try_once-IsRetry = record { last = λ f s. (s, refl) }

ok_updates :
    (m w : Meta) (stored w' : Meta)
    → ◌≡◌ {A = Result Meta × Meta} (ok m, m) (ok stored, w')
    → stored.annotations ≡ m.annotations
ok_updates m w stored w' e = cc

cluster-IsStored : IsStored cluster
cluster-IsStored = record { kept = λ m w {stored} {w'} e. ok_updates m w stored w' e }

abbrev fresh : Meta
fresh = record { annotations = []; resource_version = "1" }

fresh_ok : (initialize_cleanup_tracking times cluster try_once (fresh, fresh)).0 ≡ none
unfolding initialize_cleanup_tracking lookup try_track
fresh_ok = refl
