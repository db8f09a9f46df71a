-- ===== src/Reconcile/Deletion.antt =====
-- internal/controller/monitor_controller.go: the branch of Reconcile for a Monitor that is being
-- deleted.
pub mod Laws
pub mod AdoptedLaws
use uptime_robot_operator.Prelude.{
  ℕ, String, Bool, true, false, ◌&&◌, not, Option, none, some, List, [], ◌∷◌, if◌then◌else◌,
}
use uptime_robot_operator.Prelude.Int.{ℤ, pos}
use uptime_robot_operator.Failure.{Failure, Result, ok, err, is, api_not_found}
use uptime_robot_operator.Finalizer.Cleanup.{
  CleanupOptions, CleanupResult, Outcome, Handled, handle_finalizer_cleanup,
}
use uptime_robot_operator.Finalizer.Cleanup.Outcome.{returned, panicked}
use uptime_robot_operator.Finalizer.Tracking.{Meta, initialize_cleanup_tracking}
use uptime_robot_operator.Monitor.Resource.{Monitor}
use uptime_robot_operator.Api.Transport.{Transport}
use uptime_robot_operator.Reconcile.Session.{
  Cluster, Session, Action, Exit, Ending, continues, exits, failed, requeue_after, exit, proceed,
  give_up_on, held, change, ◌>>=◌, ◌>>◌,
}
use uptime_robot_operator.Reconcile.Status.{save}
use uptime_robot_operator.Reconcile.Adopters.{cleanup_monitor}

abbrev pub finalizer_name : String
finalizer_name = "uptimerobot.com/finalizer"

-- client.IgnoreNotFound
unfoldable pub ignore_not_found : Failure → Ending
ignore_not_found e = if is e api_not_found then requeue_after (pos 0) else failed e

module _ {W : Type 0} (k : Cluster W) where
  abbrev pub tracked : Session W → Option Failure × (W × Meta) → Exit (Unit {0}) × Session W
  tracked s (some e, (w, m)) = (exits (failed e), record s { world = w })
  tracked s (none, (w, m)) = (
    continues tt,
    record s {
      world = w;
      monitor = record s.monitor {
        annotations = m.annotations;
        resource_version = m.resource_version;
      };
    },
  )

  -- InitializeCleanupTracking on the Monitor at hand
  unfoldable pub track : Action W (Unit {0})
  track s =
      let m : Meta = record {
        annotations = s.monitor.annotations;
        resource_version = s.monitor.resource_version;
      } in
      tracked s (initialize_cleanup_tracking k.time k.meta k.retry (s.world, m))

  abbrev pub reloaded : Session W → Result Monitor × W → Exit (Unit {0}) × Session W
  reloaded s (ok latest, w) = (continues tt, record { monitor = latest; world = w })
  reloaded s (err e, w) = (exits (ignore_not_found e), record s { world = w })

  -- the Monitor is read again, or found to be gone
  unfoldable pub reload : Action W (Unit {0})
  reload s = reloaded s (k.get s.world)

  abbrev pub options : Monitor → CleanupOptions
  options m = record {
    annotations = m.annotations;
    conditions = m.status.conditions;
    observed_generation = m.generation;
    has_recorder = k.has_recorder;
    cleanup_timeout = pos 0;
  }

  abbrev pub cleaned : Session W → Outcome × W → Exit CleanupResult × Session W
  cleaned s (panicked, w) = (exits Ending.panicked, record s { world = w })
  cleaned s (returned h, w) = (
    continues h.result,
    record {
      world = w;
      monitor = record s.monitor { status = record s.monitor.status { conditions = h.conditions } };
    },
  )

  abbrev pub updated : Session W → Result Monitor × W → Exit (Unit {0}) × Session W
  updated s (ok stored, w) = (continues tt, record { monitor = stored; world = w })
  updated s (err e, w) = (exits (failed e), record s { world = w })

  -- r.Update
  unfoldable pub update : Action W (Unit {0})
  update s = updated s (k.update s.monitor s.world)

  -- a cleanup that neither succeeded nor is forced is tried again
  unfoldable pub requeue_unless_done : CleanupResult → Action W (Unit {0})
  requeue_unless_done r =
      if not r.success && not r.force_remove
      then exit (requeue_after r.requeue_after)
      else proceed tt

  module _ (t : Transport W) where
    -- HandleFinalizerCleanup on the Monitor at hand
    unfoldable pub clean_up : Action W CleanupResult
    clean_up s = cleaned s (
        handle_finalizer_cleanup k.time (k.clock s.world) (options s.monitor)
          (cleanup_monitor k t s.monitor) s.world)

    unfoldable pub finalize : Action W (Unit {0})
    unfolding requeue_unless_done
    finalize = do
      track
      reload
      result ← clean_up
      save k
      requeue_unless_done result
      change (λ m. k.remove_finalizer m finalizer_name)
      update

    -- the branch for a Monitor with a DeletionTimestamp
    unfoldable pub reconcile_deletion : Action W (Unit {0})
    reconcile_deletion s =
        let released = (do finalize; exit (requeue_after (pos 0))) s in
        if k.contains_finalizer s.monitor finalizer_name
        then released
        else (exits (requeue_after (pos 0)), s)
