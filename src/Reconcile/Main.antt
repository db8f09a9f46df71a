-- ===== src/Reconcile/Main.antt =====
-- internal/controller/monitor_controller.go: Reconcile from end to end.
pub mod Laws
pub mod ReportLaws
use uptime_robot_operator.Prelude.{
  ℕ, String, Bool, true, false, ◌*◌, not, Option, none, some, List, [], ◌∷◌, if◌then◌else◌,
}
use uptime_robot_operator.Prelude.Int.{ℤ, pos}
use uptime_robot_operator.Text.{concat}
use uptime_robot_operator.Failure.{Failure, Result, ok, err}
use uptime_robot_operator.Retry.Delay.{second}
use uptime_robot_operator.Conditions.{
  set_ready_condition, set_synced_condition, set_error_condition, reason_reconcile_error,
  reason_reconcile_success, reason_sync_success, reason_secret_not_found,
}
use uptime_robot_operator.Monitor.Resource.{Monitor}
use uptime_robot_operator.Api.Transport.{Transport}
use uptime_robot_operator.Reconcile.Session.{
  Cluster, Session, Action, Exit, Ending, Account, continues, exits, failed, requeue_after, exit,
  proceed, held, change, call, ◌>>=◌, ◌>>◌,
}
use uptime_robot_operator.Reconcile.Status.{on_status, set_by, save, reconcile_failed}
use uptime_robot_operator.Reconcile.Access.{get_account, get_api_key}
use uptime_robot_operator.Reconcile.Deletion.{
  finalizer_name, ignore_not_found, update, reconcile_deletion,
}
use uptime_robot_operator.Reconcile.Publish.{reconcile_publish_target}
use uptime_robot_operator.Reconcile.Steps.{
  read_or, mark_unready, resolve_contacts, resolve_auth, delete_other_type,
}
use uptime_robot_operator.Reconcile.Sync.{sync}

abbrev pub synced_message : String
synced_message = "Successfully synced with UptimeRobot"

module _ {W : Type 0} (k : Cluster W) where
  -- LastSyncedTime, at reading n of the clock
  unfoldable pub stamp : ℕ → Action W (Unit {0})
  stamp n s = on_status (λ st. record st { last_synced_time = some (k.clock s.world n) }) s

  publish_failed : Failure → Action W (Unit {0})
  publish_failed e =
      let msg : String =
        concat ("Failed to reconcile heartbeat URL publish target: " ∷ e.message ∷ []) in
      do
        set_by k set_ready_condition 0 false reason_reconcile_error msg
        set_by k set_synced_condition 1 true reason_sync_success synced_message
        set_by k set_error_condition 2 true reason_reconcile_error msg
        stamp 3
        save k
        exit (failed e)

  published : Option Failure × Session W → Exit (Unit {0}) × Session W
  unfolding publish_failed
  published (none, s) = (continues tt, s)
  published (some e, s) = publish_failed e s

  unfoldable pub publish : Action W (Unit {0})
  unfolding published
  publish s = published (reconcile_publish_target k s)

  next_sync : Bool → Option ℤ → Ending
  next_sync true interval = requeue_after (pos (10 * second))
  next_sync false none = Ending.panicked
  next_sync false (some interval) = requeue_after interval

  -- the conditions of a Monitor that agrees with UptimeRobot
  unfoldable pub succeed : Action W (Unit {0})
  succeed = do
    set_by k set_ready_condition 0 true reason_reconcile_success "Monitor reconciled successfully"
    set_by k set_synced_condition 1 true reason_sync_success synced_message
    set_by k set_error_condition 2 false reason_reconcile_success ""
    stamp 3
    save k

  unfoldable pub finish : Bool → Action W (Unit {0})
  unfolding next_sync
  finish verify_paused_soon = do
    succeed
    m ← held
    exit (next_sync verify_paused_soon m.spec.sync_interval)

  -- The finalizer is in the cluster before anything is sent to UptimeRobot.
  unfoldable pub ensure_finalizer : Action W (Unit {0})
  ensure_finalizer s =
      let added = (do change (λ m. k.add_finalizer m finalizer_name); update k) s in
      if not (k.contains_finalizer s.monitor finalizer_name) then added else (continues tt, s)

  module _ (t : Transport W) where
    -- a Monitor that has the finalizer and is not being deleted
    unfoldable pub reconcile_guarded : Action W (Unit {0})
    reconcile_guarded = do
      delete_other_type k t
      m ← held
      contacts ← resolve_contacts k m.spec.contacts
      resolve_auth k m.spec.monitor.auth
      verify_paused_soon ← sync k t contacts
      publish
      finish verify_paused_soon

    -- a Monitor that is not being deleted
    unfoldable pub reconcile_live : Action W (Unit {0})
    reconcile_live = do ensure_finalizer; reconcile_guarded

    unfoldable pub with_api : Action W (Unit {0})
    with_api s =
        let gone = reconcile_deletion k t s in
        let live = reconcile_live s in if s.monitor.is_deleting then gone else live

  no_account : Failure → Action W Account
  no_account e = do
    mark_unready
    reconcile_failed k reason_reconcile_error (concat ("Failed to get account: " ∷ e.message ∷ []))
        e

  no_api_key : Failure → Action W String
  no_api_key e = do
    mark_unready
    reconcile_failed k reason_secret_not_found (concat ("Failed to get API key: " ∷ e.message ∷ []))
        e

  observe : Action W (Unit {0})
  observe s = on_status (λ st. record st { observed_generation = s.monitor.generation }) s

  -- what follows the first read of the Monitor
  unfoldable pub reconcile_monitor : Action W (Unit {0})
  unfolding no_account no_api_key observe
  reconcile_monitor = do
    observe
    m ← held
    account ← read_or (get_account k.accounts m.spec.account) no_account
    key ← read_or (get_api_key k.accounts account) no_api_key
    with_api (k.api key)

  ended : Exit (Unit {0}) × Session W → Ending × W
  ended (exits e, s) = (e, s.world)
  ended (continues u, s) = (requeue_after (pos 0), s.world)

  resumed : Result Monitor × W → Ending × W
  unfolding ended
  resumed (err e, w) = (ignore_not_found e, w)
  resumed (ok m, w) = ended (reconcile_monitor (record { monitor = m; world = w }))

  -- Reconcile
  unfoldable pub reconcile : W → Ending × W
  unfolding resumed
  reconcile w = resumed (k.get w)
