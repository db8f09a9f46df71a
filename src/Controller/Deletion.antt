-- ===== src/Controller/Deletion.antt =====
-- internal/controller: the branch of Reconcile for a maintenance window, a monitor group or a Slack
-- integration that is being deleted. The finalizer, the
-- write of the status and the cleanup are those of the kind.
pub mod Laws
use uptime_robot_operator.Prelude.{String, Bool, ◌&&◌, not, Option, none, some, List, if◌then◌else◌}
use uptime_robot_operator.Prelude.Int.{ℤ, pos}
use uptime_robot_operator.Failure.{Failure, Result, ok, err}
use uptime_robot_operator.Finalizer.Cleanup.{
  CleanupOptions, CleanupResult, Outcome, Handled, handle_finalizer_cleanup,
}
use uptime_robot_operator.Finalizer.Cleanup.Outcome.{returned, panicked}
use uptime_robot_operator.Finalizer.Tracking.{Meta, initialize_cleanup_tracking}
use uptime_robot_operator.Reconcile.Session.{Exit, Ending, continues, exits, failed, requeue_after}
use uptime_robot_operator.Reconcile.Deletion.{ignore_not_found}
use uptime_robot_operator.Controller.Session.{
  Object, Cluster, Session, Action, onward, exit, proceed, change, ◌>>=◌, ◌>>◌,
}
use uptime_robot_operator.Controller.Status.{Writer, write_object, try_write}

module _ {W Spec Extra : Type 0} (k : Cluster W Spec Extra) where
  abbrev pub tracked_object :
      Session W Spec Extra → Option Failure × (W × Meta) → Exit (Unit {0}) × Session W Spec Extra
  tracked_object s (some e, (w, m)) = (exits (failed e), record s { world = w })
  tracked_object s (none, (w, m)) = (
    continues tt,
    record s {
      world = w;
      object = record s.object {
        annotations = m.annotations;
        resource_version = m.resource_version;
      };
    },
  )

  -- InitializeCleanupTracking on the resource at hand
  unfoldable pub track_object : Action W Spec Extra (Unit {0})
  track_object s =
      let m : Meta = record {
        annotations = s.object.annotations;
        resource_version = s.object.resource_version;
      } in
      tracked_object s (initialize_cleanup_tracking k.time k.meta k.retry (s.world, m))

  abbrev pub reloaded_object :
      Session W Spec Extra → Result (Object Spec Extra) × W → Exit (Unit {0}) × Session W Spec Extra
  reloaded_object s (ok latest, w) = (continues tt, record { object = latest; world = w })
  reloaded_object s (err e, w) = (exits (ignore_not_found e), record s { world = w })

  -- r.Get, where an object that is gone ends the reconcile
  unfoldable pub load_object : Action W Spec Extra (Unit {0})
  load_object s = reloaded_object s (k.get s.world)

  abbrev pub cleanup_options : Object Spec Extra → CleanupOptions
  cleanup_options o = record {
    annotations = o.annotations;
    conditions = o.status.conditions;
    observed_generation = o.generation;
    has_recorder = k.has_recorder;
    cleanup_timeout = pos 0;
  }

  abbrev pub cleaned_object :
      Session W Spec Extra → Outcome × W → Exit CleanupResult × Session W Spec Extra
  cleaned_object s (panicked, w) = (exits Ending.panicked, record s { world = w })
  cleaned_object s (returned h, w) = (
    continues h.result,
    record {
      world = w;
      object = record s.object { status = record s.object.status { conditions = h.conditions } };
    },
  )

  -- a cleanup that neither succeeded nor is forced is tried again
  unfoldable pub retry_unless_done : CleanupResult → Action W Spec Extra (Unit {0})
  retry_unless_done r =
      if not r.success && not r.force_remove
      then exit (requeue_after r.requeue_after)
      else proceed tt

  module _ (finalizer : String) (put : Writer W Spec Extra)
      (cleanup : Object Spec Extra → W → Option Failure × W) where
    -- HandleFinalizerCleanup on the resource at hand
    unfoldable pub clean_up_object : Action W Spec Extra CleanupResult
    clean_up_object s = cleaned_object s (
        handle_finalizer_cleanup k.time (k.clock s.world) (cleanup_options s.object)
          (cleanup s.object) s.world)

    unfoldable pub finalize_object : Action W Spec Extra (Unit {0})
    unfolding retry_unless_done
    finalize_object = do
      track_object
      load_object
      result ← clean_up_object
      try_write k put
      retry_unless_done result
      change (λ o. k.remove_finalizer o finalizer)
      try_write k (write_object k)

    -- the branch for a resource with a DeletionTimestamp
    unfoldable pub delete_object : Action W Spec Extra (Unit {0})
    delete_object s =
        let released = (do finalize_object; exit (requeue_after (pos 0))) s in
        if k.contains_finalizer s.object finalizer
        then released
        else (exits (requeue_after (pos 0)), s)
