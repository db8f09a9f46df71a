-- ===== src/Reconcile/Sync.antt =====
-- internal/controller/monitor_controller.go: Reconcile for a Monitor with an id. The state of the
-- monitor in UptimeRobot is read, brought to that of the specification, and the other fields are
-- changed.
use uptime_robot_operator.Prelude.{
  ℕ, String, Bool, true, false, ◌||◌, not, Option, none, some, List, [], ◌∷◌, ◌==◌, if◌then◌else◌,
}
use uptime_robot_operator.Text.{concat, is_blank}
use uptime_robot_operator.Failure.{Failure, Result, ok, err, is, err_monitor_not_found}
use uptime_robot_operator.Urtypes.{monitor_paused, monitor_running}
use uptime_robot_operator.Monitor.{MonitorContact}
use uptime_robot_operator.Duplicate.{MonitorResponse}
use uptime_robot_operator.Api.Transport.{Transport}
use uptime_robot_operator.Api.Monitors.{get_monitor, pause_monitor, start_monitor}
use uptime_robot_operator.Api.Create.{MonitorResult, edit_monitor}
use uptime_robot_operator.Reconcile.Session.{
  Cluster, Action, continues, proceed, held, call, ◌>>=◌, ◌>>◌,
}
use uptime_robot_operator.Reconcile.Status.{save, sync_failed}
use uptime_robot_operator.Reconcile.Steps.{call_or, created_or, mark, same_upper}
use uptime_robot_operator.Reconcile.Adopt.{take, mark_wanted, start}

-- Only "PAUSED" is paused: every other state of the API is one of a running monitor.
unfoldable pub current_status : MonitorResponse → ℕ
current_status r = if same_upper r.status "PAUSED" then monitor_paused else monitor_running

module _ {W : Type 0} (k : Cluster W) (t : Transport W) where
  -- the state in UptimeRobot, and none where there is no such monitor
  unfoldable pub observed : Result MonitorResponse → Action W (Option ℕ)
  observed (ok r) s = (continues (some (current_status r)), s)
  observed (err e) s =
      let failed =
        sync_failed k (concat ("Failed to get current monitor state: " ∷ e.message ∷ [])) e s in
      if is e err_monitor_not_found then (continues none, s) else failed

  -- The call for a change of state failed, so that the monitor is in the state that it was in.
  unfoldable pub still : ℕ → String → Failure → Action W (Unit {0})
  still n what e = do
    mark n
    sync_failed k (concat ("Failed to " ∷ what ∷ " monitor: " ∷ e.message ∷ [])) e

  unfoldable pub pause_now : String → Action W Bool
  unfolding still
  pause_now id = do
    call_or (pause_monitor t id) (still monitor_running "pause")
    mark monitor_paused
    save k
    proceed true

  unfoldable pub start_now : String → Action W Bool
  unfolding still
  start_now id = do
    call_or (start_monitor t id) (still monitor_paused "start")
    mark monitor_running
    save k
    proceed false

  unfoldable pub bring_to : ℕ → Action W Bool
  unfolding pause_now start_now
  bring_to desired s =
      let paused = pause_now s.monitor.status.id s in
      let started = start_now s.monitor.status.id s in
      if desired == monitor_paused
      then paused
      else if desired == monitor_running
      then started
      else (continues false, s)

  -- the pause or start call, where the two states differ; the result says whether it was a pause
  unfoldable pub correct_state : ℕ → Option ℕ → Action W Bool
  correct_state desired none s = (continues false, s)
  correct_state desired (some current) s =
      let changed = bring_to desired s in
      if not (desired == current) then changed else (continues false, s)

  -- a monitor that had to be created again is paused where it should be
  pause_recreated : ℕ → Option ℕ → String → Action W Bool
  unfolding still
  pause_recreated desired (some current) id s = (continues false, s)
  pause_recreated desired none id s =
      let paused =
        (do call_or (pause_monitor t id) (still monitor_running "pause recreated"); proceed true)
          s in
      if desired == monitor_paused then paused else (continues false, s)

  not_edited : Failure → Action W MonitorResult
  not_edited e = sync_failed k (concat ("Failed to edit monitor: " ∷ e.message ∷ [])) e

  -- the branch for a Monitor with an id; the result says whether the monitor was just paused
  unfoldable pub update_existing : List MonitorContact → Action W Bool
  unfolding pause_recreated not_edited
  update_existing contacts = do
    m ← held
    answer ← call (get_monitor t m.status.id)
    current ← observed answer
    corrected ← correct_state m.spec.monitor.status current
    n ← held
    result ← (λ s.
        created_or (edit_monitor t k.fuel n.status.id n.spec.monitor contacts s.world) not_edited s)
    paused ← pause_recreated m.spec.monitor.status current result.id
    take k t result.id result.url
    mark_wanted k t
    save k
    proceed (corrected || paused)

  -- the two branches
  unfoldable pub sync : List MonitorContact → Action W Bool
  sync contacts s =
      let started = start k t contacts s in
      let updated = update_existing contacts s in
      if is_blank s.monitor.status.id then started else updated
