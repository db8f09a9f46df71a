-- ===== src/Reconcile/Status.antt =====
-- internal/controller/monitor_controller.go: updateMonitorStatus, and the conditions that the
-- reconciler leaves on each way out.
pub mod Laws
use uptime_robot_operator.Prelude.{
  ℕ, String, Bool, true, false, Option, none, some, List, [], ◌∷◌, if◌then◌else◌,
}
use uptime_robot_operator.Prelude.Int.{ℤ}
use uptime_robot_operator.Failure.{Failure, Result, ok, err, is, api_conflict}
use uptime_robot_operator.Conditions.{
  Condition, set_ready_condition, set_synced_condition, set_error_condition, reason_api_error,
  reason_sync_error,
}
use uptime_robot_operator.Monitor.Resource.{Monitor, MonitorStatus}
use uptime_robot_operator.Reconcile.Session.{
  Cluster, Session, Action, Exit, continues, exits, failed, exit, give_up_on, ◌>>=◌, ◌>>◌,
}

-- the latest version of the resource, with the status of the one at hand
unfoldable pub reapply : Monitor → Monitor → Monitor
reapply monitor latest = record latest {
  status = record latest.status {
    ready = monitor.status.ready;
    id = monitor.status.id;
    type = monitor.status.type;
    status = monitor.status.status;
    state = monitor.status.state;
    heartbeat_url = monitor.status.heartbeat_url;
    publish_target_type = monitor.status.publish_target_type;
    publish_target_name = monitor.status.publish_target_name;
    publish_target_key = monitor.status.publish_target_key;
    observed_generation = monitor.status.observed_generation;
    conditions = monitor.status.conditions;
    last_synced_time = monitor.status.last_synced_time;
  };
}

unfoldable pub on_status : {W : Type 0} → (MonitorStatus → MonitorStatus) → Action W (Unit {0})
on_status f s =
    (continues tt, record s { monitor = record s.monitor { status = f s.monitor.status } })

module _ {W : Type 0} (k : Cluster W) where
  -- the second write, which leaves the resource at hand as it is
  abbrev pub rewritten : Session W → Result Monitor × W → Option Failure × Session W
  rewritten s (ok stored, w) = (none, record s { world = w })
  rewritten s (err e, w) = (some e, record s { world = w })

  abbrev pub on_latest : Session W → Result Monitor × W → Option Failure × Session W
  on_latest s (err e, w) = (some e, record s { world = w })
  on_latest s (ok latest, w) = rewritten s (k.update_status (reapply s.monitor latest) w)

  abbrev pub status_written : Session W → Result Monitor × W → Option Failure × Session W
  status_written s (ok stored, w) = (none, record { monitor = stored; world = w })
  status_written s (err e, w) =
      let again = on_latest s (k.get w) in
      if is e api_conflict then again else (some e, record s { world = w })

  -- updateMonitorStatus
  unfoldable pub update_monitor_status : Session W → Option Failure × Session W
  update_monitor_status s = status_written s (k.update_status s.monitor s.world)

  abbrev pub saved_or_ends : Option Failure × Session W → Exit (Unit {0}) × Session W
  saved_or_ends (none, s) = (continues tt, s)
  saved_or_ends (some e, s) = (exits (failed e), s)

  -- and the reconcile ends where the status cannot be written
  unfoldable pub save : Action W (Unit {0})
  save s = saved_or_ends (update_monitor_status s)

  -- one of the wrappers of SetCondition, at reading n of the clock
  abbrev pub set_by :
      (Bool → String → String → ℤ → ℤ → List Condition → List Condition)
      → ℕ
      → Bool
      → String
      → String
      → Action W (Unit {0})
  set_by set n value reason message s =
      on_status
        (λ status. record status {
          conditions =
              set value reason message s.monitor.generation (k.clock s.world n) status.conditions;
        })
        s

  -- a failure before the API is asked: Synced is left alone
  unfoldable pub reconcile_failed : {A : Type 0} → String → String → Failure → Action W A
  unfolding on_status
  reconcile_failed reason msg e = do
    set_by set_ready_condition 0 false reason msg
    set_by set_error_condition 1 true reason msg
    save
    exit (failed e)

  -- a failure of the API
  unfoldable pub sync_failed : {A : Type 0} → String → Failure → Action W A
  unfolding on_status
  sync_failed msg e = do
    set_by set_ready_condition 0 false reason_api_error msg
    set_by set_synced_condition 1 false reason_sync_error msg
    set_by set_error_condition 2 true reason_api_error msg
    save
    exit (failed e)
