-- ===== src/Windows/Main/DeletionLaws.antt =====
-- The deletion of a maintenance window whose account is gone
-- (internal/controller/maintenancewindow_controller.go).
use uptime_robot_operator.Prelude.{◌≡◌, refl}
use uptime_robot_operator.Failure.{Failure, Result, ok, err}
use uptime_robot_operator.Conditions.{reason_reconcile_error}
use uptime_robot_operator.Reconcile.Session.{Account}
use uptime_robot_operator.Reconcile.Access.{get_account}
use uptime_robot_operator.Controller.Session.{onward, on_status, call, value_or}
use uptime_robot_operator.Controller.Session.Laws.{onward_ended_twice}
use uptime_robot_operator.Controller.Status.{
  write_status, without_credentials, refuse, mark_unready_without_id, try_write,
}
use uptime_robot_operator.Controller.Status.Laws.{without_credentials-Ends}
use uptime_robot_operator.Controller.Steps.{api_of_account}
use uptime_robot_operator.Controller.Deletion.{load_object}
use uptime_robot_operator.Windows.Resource.{MaintenanceWindow, WindowCluster, WindowSession}
use uptime_robot_operator.Windows.Main.{reconcile_window}

module _ {W : Type 0} (k : WindowCluster W) where
  same_refusal :
      (update : MaintenanceWindow → W → Result MaintenanceWindow × W) (e : Failure)
      (s : WindowSession W)
      → without_credentials
          (record k { update = update })
          (write_status (record k { update = update }))
          {A = Account}
          reason_reconcile_error
          "Failed to get account: "
          e
          s
        ≡ without_credentials k
            (write_status k)
            {A = Account}
            reason_reconcile_error
            "Failed to get account: "
            e
            s
  unfolding without_credentials refuse mark_unready_without_id try_write write_status onward
      on_status
  same_refusal update e s = refl

  -- A reconcile of a window whose account cannot be had never writes the window itself, being deleted or
  -- not: it is the same whatever such a write would do, so that no finalizer is taken off.
  pub reconcile_window_without_account :
      (update : MaintenanceWindow → W → Result MaintenanceWindow × W) (s : WindowSession W)
      {o : MaintenanceWindow} {e : Failure} {v w : W}
      → k.get s.world ≡ (ok o, v)
      → get_account k.accounts o.spec.account v ≡ (err e, w)
      → reconcile_window (record k { update = update }) s ≡ reconcile_window k s
  unfolding reconcile_window load_object api_of_account on_status onward call value_or
  reconcile_window_without_account update s {o} {e} {v} {w} g a = rw g (
      rw a (
        onward_ended_twice _ _ _ _ _ _ (same_refusal update e _) (
          without_credentials-Ends k (write_status k) {A = Account} reason_reconcile_error
            "Failed to get account: " e _)))
