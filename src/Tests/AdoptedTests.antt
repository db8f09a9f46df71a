-- ===== src/Tests/AdoptedTests.antt =====
-- A run of a deletion, in the model of internal/controller/monitor_controller.go, for a Monitor whose
-- monitor another resource has adopted.
use mathlib.Core.List.Memᴰ.{head}
use uptime_robot_operator.Prelude.{◌≡◌, refl, inl, true, false, List, [], same_text}
use uptime_robot_operator.Prelude.Int.{pos, ltb_ℤ, ◌-ℤ◌}
use uptime_robot_operator.Failure.{ok}
use uptime_robot_operator.Conditions.{Condition}
use uptime_robot_operator.Finalizer.Annotations.{lookup, insert}
use uptime_robot_operator.Finalizer.Cleanup.{
  is_skipped, elapsed, start_time, timeout_or_default, cleanup_start_time_annotation,
}
use uptime_robot_operator.Finalizer.Tracking.{initialize_cleanup_tracking, try_track, write}
use uptime_robot_operator.Monitor.Resource.{Monitor}
use uptime_robot_operator.Reconcile.Session.{Session, continues, exits, requeue_after}
use uptime_robot_operator.Reconcile.Status.{update_monitor_status, save}
use uptime_robot_operator.Reconcile.Adopters.Laws.{Adopts}
use uptime_robot_operator.Reconcile.Deletion.{
  finalizer_name, track, reload, options, reconcile_deletion,
}
use uptime_robot_operator.Reconcile.Deletion.Laws.{with_conditions}
use uptime_robot_operator.Reconcile.Deletion.AdoptedLaws.{reconcile_deletion_of_adopted}
use uptime_robot_operator.Tests.ReconcileTests.{stored, adopter, calm, answering, seven_is_id}

abbrev leaving : Monitor
leaving = record stored { annotations = [] }

abbrev start : Session Monitor
start = record { monitor = leaving; world = leaving }

abbrev tracking : Session Monitor
tracking = record {
  monitor = record leaving { annotations = insert cleanup_start_time_annotation "t0" [] };
  world = leaving;
}

abbrev saved : List Condition → Monitor
saved c = with_conditions calm answering leaving c

abbrev saved_session : List Condition → Session Monitor
saved_session c = record { monitor = saved c; world = saved c }

abbrev released : List Condition → Monitor
released c = record (saved c) { finalizers = [] }

is_contained : calm.contains_finalizer leaving finalizer_name ≡ true
unfolding same_text
is_contained = refl

is_tracked : track calm start ≡ (continues tt, tracking)
unfolding track initialize_cleanup_tracking try_track write lookup
is_tracked = refl

is_reloaded : reload calm tracking ≡ (continues tt, start)
unfolding reload
is_reloaded = refl

not_skipped : is_skipped (options calm leaving) ≡ false
unfolding is_skipped lookup
not_skipped = refl

in_time :
    ltb_ℤ
      (timeout_or_default (pos 0))
      (elapsed calm.time (calm.clock leaving) (options calm leaving))
    ≡ false
unfolding elapsed start_time lookup ◌-ℤ◌
in_time = refl

leaving-Adopts : Adopts leaving adopter
leaving-Adopts =
    unfold lookup same_text in
    record { another = refl; live = refl; account = refl; claim = inl refl }

saves :
    (c : List Condition)
    → save calm (record { monitor = saved c; world = leaving }) ≡ (continues tt, saved_session c)
unfolding save update_monitor_status
saves c = refl

updates :
    (c : List Condition)
    → calm.update (calm.remove_finalizer (saved c) finalizer_name) (saved c)
      ≡ (ok (released c), released c)
updates c = refl

reconcile_deletion_of_adopted_example :
    (c : List Condition) × (reconcile_deletion calm answering start
      ≡ (exits (requeue_after (pos 0)), record { monitor = released c; world = released c }))
reconcile_deletion_of_adopted_example =
    reconcile_deletion_of_adopted calm answering start tracking start saved_session released
      released is_contained is_tracked is_reloaded not_skipped in_time refl refl seven_is_id refl
      (head refl) leaving-Adopts saves updates
