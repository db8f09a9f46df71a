-- ===== src/Groups/Main/SyncLaws.antt =====
-- What a synchronisation of a monitor group comes to
-- (internal/controller/monitorgroup_controller.go).
use uptime_robot_operator.Prelude.{◌≡◌, String, true, false, some, List, length}
use uptime_robot_operator.Prelude.Int.{ℤ}
use uptime_robot_operator.Strconv.{itoa}
use uptime_robot_operator.Failure.{Failure, ok, err, is_not_found}
use uptime_robot_operator.Conditions.{condition_true, condition_false}
use uptime_robot_operator.Api.Wire.{GroupWireFormat}
use uptime_robot_operator.Api.Transport.{Transport}
use uptime_robot_operator.Api.Groups.{spawn_group_in_backend, mutate_group_in_backend}
use uptime_robot_operator.Reconcile.Session.{continues}
use uptime_robot_operator.Reconcile.Main.ReportLaws.{Reads}
use uptime_robot_operator.Controller.Status.{write_status, try_write}
use uptime_robot_operator.Groups.Resource.{
  MonitorGroup, GroupCluster, GroupSession, group_creation, group_update,
}

module _ {W : Type 0} (k : GroupCluster W) (t : Transport W) (ids : List ℤ) where
  -- The requests that may lie behind a success, with the answer to the last and the id that the group
  -- then has: a creation where the group was not ready; else an update; or a creation after an update
  -- that was answered with "not found".
  pub data Requests (o : MonitorGroup) (w : W) : GroupWireFormat → W → String → Type 0 where
    created :
        {r : GroupWireFormat} {v : W}
        → o.status.ready ≡ false
        → spawn_group_in_backend t k.codec (group_creation o.spec ids) w ≡ (ok r, v)
        → Requests o w r v (itoa r.id)
    updated :
        {r : GroupWireFormat} {v : W}
        → o.status.ready ≡ true
        → mutate_group_in_backend t k.codec o.status.id (group_update o.spec ids) w ≡ (ok r, v)
        → Requests o w r v o.status.id
    recreated :
        {r : GroupWireFormat} {e : Failure} {u v : W}
        → o.status.ready ≡ true
        → mutate_group_in_backend t k.codec o.status.id (group_update o.spec ids) w ≡ (err e, u)
        → is_not_found (some e) ≡ true
        → spawn_group_in_backend t k.codec (group_creation o.spec ids) u ≡ (ok r, v)
        → Requests o w r v (itoa r.id)

  -- a group whose status is what an answer to a success says
  pub record Says (o m : MonitorGroup) (r : GroupWireFormat) (its : String) : Type 0 where
    pub spec : m.spec ≡ o.spec
    pub ready : m.status.ready ≡ true
    pub id : m.status.id ≡ its
    pub count : m.status.extra.monitor_count ≡ length ids
    pub reads : Reads condition_true condition_true condition_false m.status.conditions

  -- the last write of a success
  abbrev pub Success : GroupSession W → GroupSession W → Type 0
  Success s s' =
      (r : GroupWireFormat) × (v : W) × (id : String) × (m : MonitorGroup) × Requests s.object
        s.world r v id
      × Says s.object m r id
      × (try_write k (write_status k) (record { object = m; world = v }) ≡ (continues tt, s'))
