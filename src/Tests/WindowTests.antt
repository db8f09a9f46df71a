-- ===== src/Tests/WindowTests.antt =====
-- Tests of the models of internal/controller/maintenancewindow_controller.go and
-- monitorgroup_controller.go.
use Prim.Native.Nat.{ℕ}
use uptime_robot_operator.Prelude.{
  ◌≡◌, refl, ap, same_text, ◌≢◌, ◌⊎◌, inl, ◌≤◌, ◌<◌, ◌+◌, ◌*◌, ◌%◌, true, false, none, some, [],
  ◌∷◌,
}
use uptime_robot_operator.Prelude.Int.{pos, pos_part}
use uptime_robot_operator.Failure.{Failure, Result, ok, err, wrap, failure, is_not_found}
use uptime_robot_operator.Conditions.{condition_true, condition_false}
use uptime_robot_operator.Request.Fields.{minute}
use uptime_robot_operator.Api.Transport.{do_json, exchange, new_request, checked, then_do}
use uptime_robot_operator.Api.Windows.{update_maintenance_window}
use uptime_robot_operator.Reconcile.Session.{failed, Accounts}
use uptime_robot_operator.Reconcile.Access.{get_account}
use uptime_robot_operator.Reconcile.Deletion.{finalizer_name}
use uptime_robot_operator.Reconcile.Main.ReportLaws.{Reads}
use uptime_robot_operator.Controller.Session.{onward, exit}
use uptime_robot_operator.Controller.Status.{write_status, try_write}
use uptime_robot_operator.Windows.Duration.{
  duration_minutes, ceil_minutes, is_absorbed, half_units, at_least_one,
}
use uptime_robot_operator.Windows.Duration.Laws.{duration_minutes_bounds}
use uptime_robot_operator.Windows.Resource.{
  MaintenanceWindow, MaintenanceWindowSpec, WindowCluster, WindowSession,
}
use uptime_robot_operator.Windows.Main.{sync_window, reconcile_window}
use uptime_robot_operator.Windows.Main.Laws.{sync_window_refused}
use uptime_robot_operator.Windows.Main.DeletionLaws.{reconcile_window_without_account}
use uptime_robot_operator.Groups.Resource.{
  MonitorGroup, MonitorGroupSpec, GroupCluster, GroupSession,
}
use uptime_robot_operator.Groups.Main.{sync_group, group_deleted_or_live}
use uptime_robot_operator.Groups.Main.Laws.{other_accounts, group_deletion_without_account}
use uptime_robot_operator.Groups.Main.SyncLaws
use uptime_robot_operator.Tests.ControllerTests.{resource, holding, writes, counting}

duration_minutes_bounds_example :
    let m = pos_part (duration_minutes (pos 90_000_000_000)) in
    (1 ≤ m)
    × ((m * minute < 90_000_000_000 + minute) ⊎ ◌≡◌ {A = ℕ} 90_000_000_000 0)
    × (90_000_000_000 ≤ m * minute + 894)
    × ((90_000_000_000 % 1_000_000_000 ≢ 0) ⊎ (90_000_000_000 ≤ m * minute))
duration_minutes_bounds_example = duration_minutes_bounds 90_000_000_000

-- half an hour is sent as it is, and a nanosecond after 262144 minutes is lost
exact_and_shortened :
    (duration_minutes (pos 1_800_000_000_000) ≡ pos 30)
    × (duration_minutes (pos 15_728_640_000_000_001) ≡ pos 262_144)
unfolding duration_minutes ceil_minutes is_absorbed half_units at_least_one
exact_and_shortened = (refl, refl)

abbrev nightly : MaintenanceWindowSpec
nightly = record {
  sync_interval = some (pos 60);
  prune = true;
  account = "";
  name = "night";
  interval = "daily";
  start_date = "";
  start_time = "02:00:00";
  duration = pos 1_800_000_000_000;
  days = [];
  auto_add_monitors = false;
  monitor_refs = "site" ∷ [];
}

abbrev new_window : WindowSession ℕ
new_window = record {
  object = resource false [] nightly false "" (record { monitor_count = 0 });
  world = 0;
}

abbrev windows : WindowCluster ℕ
windows = holding new_window.object writes (ok "")

created_window : WindowSession ℕ
created_window =
    (sync_window windows (counting (ok "")) (pos 5 ∷ []) new_window.object new_window).1

abbrev old_window : WindowSession ℕ
old_window = record {
  object = resource false [] nightly true "7" (record { monitor_count = 1 });
  world = 0;
}

abbrev forbidden : Failure
forbidden = failure "status 403" []

sync_window_refused_example :
    (m : MaintenanceWindow) × (sync_window windows
        (counting (err forbidden))
        []
        old_window.object
        old_window
      ≡ onward
          (try_write windows (write_status windows) (record { object = m; world = 1 }))
          (λ x. exit (failed (wrap "failed to update maintenance window: " forbidden))))
    × Reads condition_false condition_false condition_true m.status.conditions
    × (m.status.ready ≡ true)
    × (m.status.id ≡ "7")
    × (m.spec ≡ nightly)
unfolding update_maintenance_window do_json exchange new_request checked then_do is_not_found
sync_window_refused_example =
    sync_window_refused windows (counting (err forbidden)) [] old_window forbidden 1 refl refl refl

abbrev pub going : MaintenanceWindow
going =
    resource true (finalizer_name ∷ []) (record nightly { account = "gone" }) true "7"
      (record { monitor_count = 1 })

abbrev no_write : MaintenanceWindow → ℕ → Result MaintenanceWindow × ℕ
no_write x n = (err forbidden, n)

reconcile_window_without_account_example :
    reconcile_window
      (record (holding going writes (ok "")) { update = no_write })
      (record { object = going; world = 0 })
    ≡ reconcile_window (holding going writes (ok "")) (record { object = going; world = 0 })
unfolding get_account same_text
reconcile_window_without_account_example =
    reconcile_window_without_account (holding going writes (ok "")) no_write
      (record { object = going; world = 0 }) {e = failure "no account" []} refl refl

abbrev all_sites : MonitorGroupSpec
all_sites = record {
  sync_interval = some (pos 60);
  prune = false;
  account = "";
  friendly_name = "all";
  monitors = "site" ∷ [];
  pull_from_groups = [];
}

abbrev going_group : GroupSession ℕ
going_group = record {
  object =
      resource true (finalizer_name ∷ []) all_sites true "7"
        (record { monitor_count = 1; last_reconciled = none });
  world = 0;
}

abbrev groups : GroupCluster ℕ
groups = holding going_group.object writes (ok "")

abbrev nobody : Accounts ℕ
nobody = record {
  get_account = λ name n. (err forbidden, n);
  list_default_accounts = λ n. (ok [], n);
  get_secret = λ namespace name n. (err forbidden, n);
}

group_deletion_without_account_example :
    group_deleted_or_live (other_accounts groups nobody) going_group
    ≡ group_deleted_or_live groups going_group
group_deletion_without_account_example =
    group_deletion_without_account groups nobody going_group refl (λ o v w e. inl (kept o w v e))
  where
    kept : (o : MonitorGroup) (w v : ℕ) → groups.get v ≡ (ok o, w) → o.spec.prune ≡ false
    kept o w v e =
        let same : o ≡ going_group.object = cc in ap (λ (x : MonitorGroup). x.spec.prune) same

abbrev new_group : GroupSession ℕ
new_group = record {
  object =
      resource false [] all_sites false "" (record { monitor_count = 0; last_reconciled = none });
  world = 0;
}

created_group : GroupSession ℕ
created_group = (sync_group groups (counting (ok "")) (pos 5 ∷ []) new_group.object new_group).1
