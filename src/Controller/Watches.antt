-- ===== src/Controller/Watches.antt =====
-- SetupWithManager of internal/controller/maintenancewindow_controller.go and monitorgroup_controller.go:
-- the index of the references to monitors, and which resources are reconciled where a Monitor changes.
pub mod Laws
use uptime_robot_operator.Prelude.{
  String, Bool, true, false, ◌&&◌, ◌||◌, not, List, [], ◌∷◌, map, keep, same_text,
}
use uptime_robot_operator.Text.{is_blank}
use uptime_robot_operator.Failure.{Result, ok, err}
use uptime_robot_operator.Monitor.Resource.{Monitor}
use uptime_robot_operator.Controller.Session.{Object}
use uptime_robot_operator.Windows.Resource.{MaintenanceWindow}
use uptime_robot_operator.Groups.Resource.{MonitorGroup}

-- the loop of both indices: the names that are not empty
unfoldable pub without_blanks : List String → List String
unfolding keep
without_blanks names = keep (λ name. not (is_blank name)) names

-- the entries of the index "spec.monitorRefs"
unfoldable pub monitor_refs_index : MaintenanceWindow → List String
unfolding without_blanks
monitor_refs_index w = without_blanks w.spec.monitor_refs

-- the entries of the index "spec.monitors"
unfoldable pub monitors_index : MonitorGroup → List String
unfolding without_blanks
monitors_index g = without_blanks g.spec.monitors

pub record NamespacedName : Type 0 where
  pub namespace : String
  pub name : String

abbrev pub has_entry : String → List String → Bool
has_entry key [] = false
has_entry key (k ∷ more) = same_text k key || has_entry key more

abbrev pub request_for : {Spec Extra : Type 0} → Object Spec Extra → NamespacedName
request_for o = record { namespace = o.namespace; name = o.name }

module _ {Spec Extra : Type 0} (index : Object Spec Extra → List String) where
  -- client.InNamespace and client.MatchingFields, on the resources of all namespaces
  unfoldable pub selected : String → String → List (Object Spec Extra) → List (Object Spec Extra)
  unfolding keep
  selected namespace key all =
      keep (λ o. same_text o.namespace namespace && has_entry key (index o)) all

  -- Where the list cannot be had, nothing is reconciled.
  abbrev pub requests : String → String → Result (List (Object Spec Extra)) → List NamespacedName
  requests namespace key (ok all) = map request_for (selected namespace key all)
  requests namespace key (err e) = []

-- the maintenance windows to reconcile where a Monitor changes, for what a list of all windows answers
unfoldable pub window_requests : Monitor → Result (List MaintenanceWindow) → List NamespacedName
unfolding selected monitor_refs_index
window_requests monitor all = requests monitor_refs_index monitor.namespace monitor.name all

-- the monitor groups
unfoldable pub group_requests : Monitor → Result (List MonitorGroup) → List NamespacedName
unfolding selected monitors_index
group_requests monitor all = requests monitors_index monitor.namespace monitor.name all
