-- ===== src/Reconcile/Status/Laws.antt =====
-- Writing the status of a Monitor (internal/controller/monitor_controller.go).
use uptime_robot_operator.Prelude.{◌≡◌, refl, true, none}
use uptime_robot_operator.Failure.{Failure, ok, err, is, api_conflict}
use uptime_robot_operator.Monitor.Resource.{Monitor}
use uptime_robot_operator.Reconcile.Session.{Cluster, Session}
use uptime_robot_operator.Reconcile.Status.{reapply, update_monitor_status}

-- Where the write of the status meets a conflict, and the Monitor can be read again, what is written
-- is the version that was read with the whole of the status at hand and no other change; the error
-- is that of this second write.
pub update_monitor_status_conflict :
    {W : Type 0} (k : Cluster W) (s : Session W) {e : Failure} {latest stored : Monitor} {w v u : W}
    → k.update_status s.monitor s.world ≡ (err e, w)
    → is e api_conflict ≡ true
    → k.get w ≡ (ok latest, v)
    → k.update_status (record latest { status = s.monitor.status }) v ≡ (ok stored, u)
    → update_monitor_status k s ≡ (none, record s { world = u })
unfolding update_monitor_status reapply
update_monitor_status_conflict k s {e} {latest} {stored} {w} {v} {u} p c g q =
    rw p (rw c (rw g (rw q refl)))
