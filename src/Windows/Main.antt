-- ===== src/Windows/Main.antt =====
-- internal/controller/maintenancewindow_controller.go: Reconcile.
pub mod Laws
pub mod DeletionLaws
use uptime_robot_operator.Prelude.{
  ℕ, String, Bool, true, false, ◌||◌, not, Option, none, some, List, [], ◌∷◌, length, if◌then◌else◌,
}
use uptime_robot_operator.Prelude.Int.{ℤ}
use uptime_robot_operator.Text.{concat}
use uptime_robot_operator.Strconv.{itoa}
use uptime_robot_operator.Failure.{Failure, Result, ok, err, wrap, is_not_found}
use uptime_robot_operator.Api.Wire.{MaintenanceWindowResponse}
use uptime_robot_operator.Api.Transport.{Transport}
use uptime_robot_operator.Api.Windows.{
  create_maintenance_window, update_maintenance_window, delete_maintenance_window,
}
use uptime_robot_operator.Reconcile.Deletion.{finalizer_name}
use uptime_robot_operator.Controller.Session.{
  onward, on_status, held, call, read_or, value_or, ◌>>=◌, ◌>>◌,
}
use uptime_robot_operator.Controller.Status.{
  Writer, write_status, mark_unready, api_failed, report_success,
}
use uptime_robot_operator.Controller.Steps.{
  api_of_account, attach_finalizer, resolve_monitors, requeue,
}
use uptime_robot_operator.Controller.Deletion.{load_object, delete_object}
use uptime_robot_operator.Windows.Resource.{
  MaintenanceWindow, MaintenanceWindowSpec, MaintenanceWindowExtra, WindowCluster, WindowAction,
  create_window_request, update_window_request,
}

-- what a deletion does in UptimeRobot: nothing for a window that is not pruned or not ready
unfoldable pub cleanup_window :
    {W : Type 0} → Transport W → MaintenanceWindow → W → Option Failure × W
cleanup_window t o w =
    if not o.spec.prune || not o.status.ready
    then (none, w)
    else delete_maintenance_window t o.status.id w

abbrev window_synced : String
window_synced = "MaintenanceWindow reconciled successfully"

module _ {W : Type 0} (k : WindowCluster W) where
  abbrev put : Writer W MaintenanceWindowSpec MaintenanceWindowExtra
  put = write_status k

  -- Status.ID and Status.MonitorCount of a window that was created
  unfoldable pub note_window : MaintenanceWindowResponse → WindowAction W (Unit {0})
  unfolding on_status
  note_window r =
      on_status
        λ st. record st { id = itoa r.id; extra = record { monitor_count = length r.monitor_ids } }

  unfoldable pub mark_window_ready : WindowAction W (Unit {0})
  unfolding on_status
  mark_window_ready = on_status (λ st. record st { ready = true })

  -- "create" and "recreate" have a branch each
  unfoldable pub window_not_created : {A : Type 0} → String → Failure → WindowAction W A
  window_not_created verb e = do
    mark_unready k
    api_failed k put (concat ("Failed to " ∷ verb ∷ " maintenance window: " ∷ e.message ∷ []))
        (concat ("Failed to sync with UptimeRobot: " ∷ e.message ∷ []))
        (wrap (concat ("failed to " ∷ verb ∷ " maintenance window: " ∷ [])) e)

  unfoldable pub window_not_updated : Failure → WindowAction W (Unit {0})
  window_not_updated e =
      api_failed k put (concat ("Failed to update maintenance window: " ∷ e.message ∷ []))
        (concat ("Failed to sync with UptimeRobot: " ∷ e.message ∷ []))
        (wrap "failed to update maintenance window: " e)

  module _ (t : Transport W) (ids : List ℤ) where
    unfoldable pub create_window : MaintenanceWindowSpec → WindowAction W (Unit {0})
    create_window spec = do
      r ←
          read_or (create_maintenance_window t k.codec (create_window_request spec ids))
            (window_not_created "create")
      mark_window_ready
      note_window r
      report_success k put 0 window_synced

    -- the window was deleted out of band
    unfoldable pub recreate_window : MaintenanceWindowSpec → WindowAction W (Unit {0})
    recreate_window spec = do
      r ←
          read_or (create_maintenance_window t k.codec (create_window_request spec ids))
            (window_not_created "recreate")
      note_window r
      report_success k put 0 window_synced

    unfoldable pub window_answer :
        MaintenanceWindowSpec → Result MaintenanceWindowResponse → WindowAction W (Unit {0})
    unfolding on_status recreate_window window_not_updated
    window_answer spec (ok r) = do
      on_status (λ st. record st { extra = record { monitor_count = length r.monitor_ids } })
      report_success k put 0 window_synced
    window_answer spec (err e) =
        if is_not_found (some e) then recreate_window spec else window_not_updated e

    unfoldable pub update_window : MaintenanceWindow → WindowAction W (Unit {0})
    unfolding window_answer
    update_window o = do
      r ← call (update_maintenance_window t k.codec o.status.id (update_window_request o.spec ids))
      window_answer o.spec r

    unfoldable pub sync_window : MaintenanceWindow → WindowAction W (Unit {0})
    unfolding create_window update_window
    sync_window o = if not o.status.ready then create_window o.spec else update_window o

  -- a window that is not being deleted
  unfoldable pub reconcile_live_window : Transport W → WindowAction W (Unit {0})
  unfolding sync_window
  reconcile_live_window t = do
    attach_finalizer k finalizer_name
    o ← held
    ids ← call (resolve_monitors k o.spec.monitor_refs)
    sync_window t ids o
    o' ← held
    requeue o'.spec.sync_interval

  unfoldable pub window_with_api : Transport W → WindowAction W (Unit {0})
  window_with_api t s =
      let gone = delete_object k finalizer_name put (cleanup_window t) s in
      let live = reconcile_live_window t s in if s.object.is_deleting then gone else live

  observe : WindowAction W (Unit {0})
  observe s = on_status (λ st. record st { observed_generation = s.object.generation }) s

  -- Reconcile, on a resource that is not read yet
  unfoldable pub reconcile_window : WindowAction W (Unit {0})
  unfolding observe
  reconcile_window = do
    load_object k
    observe
    o ← held
    t ← api_of_account k put o.spec.account
    window_with_api t
