-- ===== src/Groups/Main.antt =====
-- internal/controller/monitorgroup_controller.go: Reconcile.
pub mod Laws
pub mod SyncLaws
use uptime_robot_operator.Prelude.{
  ℕ, String, Bool, true, false, ◌||◌, not, Option, none, some, List, [], ◌∷◌, length, if◌then◌else◌,
}
use uptime_robot_operator.Prelude.Int.{ℤ}
use uptime_robot_operator.Text.{concat, is_blank}
use uptime_robot_operator.Strconv.{itoa}
use uptime_robot_operator.Failure.{Failure, Result, ok, err, wrap, is_not_found}
use uptime_robot_operator.Api.Wire.{GroupWireFormat}
use uptime_robot_operator.Api.Transport.{Transport}
use uptime_robot_operator.Api.Groups.{
  spawn_group_in_backend, mutate_group_in_backend, purge_group_from_backend,
}
use uptime_robot_operator.Reconcile.Session.{Account}
use uptime_robot_operator.Reconcile.Access.{get_account, get_api_key}
use uptime_robot_operator.Reconcile.Deletion.{finalizer_name}
use uptime_robot_operator.Controller.Session.{
  onward, on_status, held, call, read_or, value_or, ◌>>=◌, ◌>>◌,
}
use uptime_robot_operator.Controller.Status.{
  Writer, write_status, mark_unready, api_failed, report_success,
}
use uptime_robot_operator.Controller.Steps.{
  api_of_account, attach_finalizer, resolve_monitors, requeue,
}
use uptime_robot_operator.Controller.Deletion.{load_object, delete_object}
use uptime_robot_operator.Groups.Resource.{
  MonitorGroup, MonitorGroupSpec, MonitorGroupExtra, GroupCluster, GroupAction, group_creation,
  group_update,
}

abbrev group_synced : String
group_synced = "MonitorGroup reconciled successfully"

module _ {W : Type 0} (k : GroupCluster W) where
  abbrev put : Writer W MonitorGroupSpec MonitorGroupExtra
  put = write_status k

  abbrev pub purge_with : String → Result String × W → Option Failure × W
  purge_with id (err e, w) = (some (wrap "failed to get api key for cleanup: " e), w)
  purge_with id (ok key, w) = purge_group_from_backend (k.api key) id w

  abbrev pub purge_for : String → Result Account × W → Option Failure × W
  purge_for id (err e, w) = (some (wrap "failed to get account for cleanup: " e), w)
  purge_for id (ok account, w) = purge_with id (get_api_key k.accounts account w)

  -- what a deletion does: nothing for a group that is not pruned or has no id; only else are the
  -- account and its key looked for
  unfoldable pub cleanup_group : MonitorGroup → W → Option Failure × W
  cleanup_group o w =
      let purge = purge_for o.status.id (get_account k.accounts o.spec.account w) in
      if not o.spec.prune || is_blank o.status.id then (none, w) else purge

  -- Status.MonitorCount and LastReconciled: the ids that were sent, and the time
  unfoldable pub note_members : List ℤ → GroupAction W (Unit {0})
  unfolding on_status
  note_members ids s =
      on_status
        (λ st. record st {
          extra = record { monitor_count = length ids; last_reconciled = some (k.clock s.world 0) };
        })
        s

  unfoldable pub note_group_id : GroupWireFormat → GroupAction W (Unit {0})
  unfolding on_status
  note_group_id r = on_status (λ st. record st { id = itoa r.id })

  unfoldable pub mark_group_ready : GroupAction W (Unit {0})
  unfolding on_status
  mark_group_ready = on_status (λ st. record st { ready = true })

  -- the creation and the recreation have a branch each
  unfoldable pub group_not_created : {A : Type 0} → String → String → Failure → GroupAction W A
  group_not_created verb noun e = do
    mark_unready k
    api_failed k put (concat ("Group " ∷ noun ∷ " failed: " ∷ e.message ∷ []))
        (concat ("Failed to " ∷ verb ∷ " group in UptimeRobot: " ∷ e.message ∷ []))
        (wrap (concat ("group " ∷ noun ∷ " failed: " ∷ [])) e)

  unfoldable pub group_not_updated : Failure → GroupAction W (Unit {0})
  group_not_updated e =
      api_failed k put (concat ("Group update failed: " ∷ e.message ∷ []))
        (concat ("Failed to update group in UptimeRobot: " ∷ e.message ∷ []))
        (wrap "group update failed: " e)

  module _ (t : Transport W) (ids : List ℤ) where
    unfoldable pub create_group : MonitorGroupSpec → GroupAction W (Unit {0})
    create_group spec = do
      r ←
          read_or (spawn_group_in_backend t k.codec (group_creation spec ids))
            (group_not_created "create" "creation")
      mark_group_ready
      note_group_id r
      note_members ids
      report_success k put 1 group_synced

    -- the group was deleted out of band
    unfoldable pub recreate_group : MonitorGroupSpec → GroupAction W (Unit {0})
    recreate_group spec = do
      r ←
          read_or (spawn_group_in_backend t k.codec (group_creation spec ids))
            (group_not_created "recreate" "recreation")
      note_group_id r
      note_members ids
      report_success k put 1 group_synced

    unfoldable pub group_answer :
        MonitorGroupSpec → Result GroupWireFormat → GroupAction W (Unit {0})
    unfolding recreate_group group_not_updated note_members
    group_answer spec (ok r) = do note_members ids; report_success k put 1 group_synced
    group_answer spec (err e) =
        if is_not_found (some e) then recreate_group spec else group_not_updated e

    unfoldable pub update_group : MonitorGroup → GroupAction W (Unit {0})
    unfolding group_answer
    update_group o = do
      r ← call (mutate_group_in_backend t k.codec o.status.id (group_update o.spec ids))
      group_answer o.spec r

    unfoldable pub sync_group : MonitorGroup → GroupAction W (Unit {0})
    unfolding create_group update_group
    sync_group o = if not o.status.ready then create_group o.spec else update_group o

  -- a group that is not being deleted
  unfoldable pub reconcile_live_group : GroupAction W (Unit {0})
  unfolding sync_group
  reconcile_live_group = do
    o ← held
    t ← api_of_account k put o.spec.account
    attach_finalizer k finalizer_name
    g ← held
    ids ← call (resolve_monitors k g.spec.monitors)
    sync_group t ids g
    g' ← held
    requeue g'.spec.sync_interval

  observe : GroupAction W (Unit {0})
  observe s = on_status (λ st. record st { observed_generation = s.object.generation }) s

  -- the deletion comes before the account is looked for
  unfoldable pub group_deleted_or_live : GroupAction W (Unit {0})
  group_deleted_or_live s =
      let gone = delete_object k finalizer_name put cleanup_group s in
      let live = reconcile_live_group s in if s.object.is_deleting then gone else live

  -- Reconcile, on a resource that is not read yet
  unfoldable pub reconcile_group : GroupAction W (Unit {0})
  unfolding observe
  reconcile_group = do load_object k; observe; group_deleted_or_live
