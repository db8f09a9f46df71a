-- ===== src/Reconcile/Adopt.antt =====
-- internal/controller/monitor_controller.go: Reconcile for a Monitor that has no id yet. It adopts the
-- monitor that its annotation names, or creates one.
use uptime_robot_operator.Prelude.{
  String, Bool, true, false, not, Option, none, some, List, [], ◌∷◌, ◌==◌, if◌then◌else◌,
}
use uptime_robot_operator.Text.{concat, is_blank}
use uptime_robot_operator.Failure.{Failure, failure, wrap, is, err_monitor_not_found}
use uptime_robot_operator.Urtypes.{
  same_type, type_name, monitor_type_from_api_string, monitor_paused, monitor_running,
}
use uptime_robot_operator.Conditions.{reason_reconcile_error}
use uptime_robot_operator.Finalizer.Annotations.{lookup}
use uptime_robot_operator.Monitor.{MonitorContact}
use uptime_robot_operator.Monitor.Resource.{Monitor}
use uptime_robot_operator.Duplicate.{MonitorResponse}
use uptime_robot_operator.Api.Transport.{Transport}
use uptime_robot_operator.Api.Monitors.{get_monitor, pause_monitor}
use uptime_robot_operator.Api.Create.{MonitorResult, create_monitor, edit_monitor}
use uptime_robot_operator.Reconcile.Session.{Cluster, Action, continues, proceed, held, ◌>>=◌, ◌>>◌}
use uptime_robot_operator.Reconcile.Status.{on_status, save, sync_failed, reconcile_failed}
use uptime_robot_operator.Reconcile.Adopters.{adopt_id_annotation}
use uptime_robot_operator.Reconcile.Steps.{
  call_or, read_or, created_or, mark, mark_unready, heartbeat_url_of,
}

module _ {W : Type 0} (k : Cluster W) (t : Transport W) where
  -- The monitor could not be paused, so that it is running.
  pause_failed : String → Failure → Action W (Unit {0})
  pause_failed what e = do
    mark_unready
    mark monitor_running
    sync_failed k (concat ("Failed to pause " ∷ what ∷ " monitor: " ∷ e.message ∷ [])) e

  -- A monitor that is to be paused is paused at once; the result says whether it was.
  unfoldable pub pause_if_wanted : String → String → Monitor → Action W Bool
  unfolding pause_failed
  pause_if_wanted what id m s =
      let paused = (do call_or (pause_monitor t id) (pause_failed what); proceed true) s in
      if m.spec.monitor.status == monitor_paused then paused else (continues false, s)

  unread : String → Failure → Action W MonitorResponse
  unread id e s =
      let missing : String =
        concat ("cannot adopt monitor: monitor with ID " ∷ id ∷ " not found" ∷ []) in
      let not_there = reconcile_failed k reason_reconcile_error missing (failure missing []) s in
      let failed =
        sync_failed k (concat ("failed to get monitor for adoption: " ∷ e.message ∷ []))
          (wrap "failed to get monitor for adoption: " e) s in
      if is e err_monitor_not_found then not_there else failed

  -- the monitor to adopt, as the API has it
  unfoldable pub existing_monitor : String → Action W MonitorResponse
  unfolding unread
  existing_monitor id = read_or (get_monitor t id) (λ e. do mark_unready; unread id e)

  -- its type is that of the specification
  unfoldable pub check_type : MonitorResponse → Action W (Unit {0})
  check_type existing s =
      let found = monitor_type_from_api_string existing.type in
      let wanted = s.monitor.spec.monitor.type in
      let msg : String = concat (
        "cannot adopt monitor: type mismatch - existing monitor is "
        ∷ type_name found
        ∷ " but spec defines "
        ∷ type_name wanted
        ∷ []) in
      let mismatch =
        (do mark_unready; reconcile_failed k reason_reconcile_error msg (failure msg [])) s in
      if not (same_type found wanted) then mismatch else (continues tt, s)

  -- the status after the answer that a monitor was found, created or changed under the id
  unfoldable pub take : String → String → Action W (Unit {0})
  take id url s =
      on_status
        (λ st. record st {
          id = id;
          heartbeat_url = heartbeat_url_of k.heartbeat_base_url s.monitor id url;
        })
        s

  unfoldable pub take_type : Action W (Unit {0})
  take_type s = on_status (λ st. record st { ready = true; type = s.monitor.spec.monitor.type }) s

  unfoldable pub mark_wanted : Action W (Unit {0})
  mark_wanted s = mark s.monitor.spec.monitor.status s

  edit_failed : Failure → Action W MonitorResult
  edit_failed e = do
    mark_unready
    sync_failed k (concat ("Failed to edit adopted monitor: " ∷ e.message ∷ [])) e

  -- adoption; the result says whether the monitor was just paused
  unfoldable pub adopt : String → List MonitorContact → Action W Bool
  unfolding edit_failed
  adopt id contacts = do
    existing ← existing_monitor id
    check_type existing
    take_type
    mark_wanted
    take id existing.url
    save k
    m ← held
    result ←
        (λ s. created_or (edit_monitor t k.fuel id m.spec.monitor contacts s.world) edit_failed s)
    paused ← pause_if_wanted "adopted" result.id m
    mark_wanted
    take result.id result.url
    save k
    proceed paused

  create_failed : Failure → Action W MonitorResult
  create_failed e = do
    mark_unready
    sync_failed k (concat ("Failed to create monitor: " ∷ e.message ∷ [])) e

  -- creation
  unfoldable pub create : List MonitorContact → Action W Bool
  unfolding create_failed
  create contacts = do
    m ← held
    result ←
        (λ s. created_or (create_monitor t k.fuel m.spec.monitor contacts s.world) create_failed s)
    take_type
    take result.id result.url
    paused ← pause_if_wanted "newly created" result.id m
    mark_wanted
    save k
    proceed paused

  adopt_or_create : Option String → List MonitorContact → Action W Bool
  adopt_or_create none contacts s = create contacts s
  adopt_or_create (some id) contacts s =
      let adopted = adopt id contacts s in
      let created = create contacts s in if not (is_blank id) then adopted else created

  -- the branch for a Monitor with no id
  unfoldable pub start : List MonitorContact → Action W Bool
  unfolding adopt_or_create
  start contacts s = adopt_or_create (lookup adopt_id_annotation s.monitor.annotations) contacts s
