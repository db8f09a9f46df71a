-- ===== src/Windows/Resource.antt =====
-- api/v1alpha1/maintenancewindow_types.go: the MaintenanceWindow resource; and the requests that
-- internal/controller/maintenancewindow_controller.go makes of one.
use uptime_robot_operator.Prelude.{
  ℕ, String, Bool, Option, none, some, List, [], same_text, if◌then◌else◌,
}
use uptime_robot_operator.Prelude.Int.{ℤ}
use uptime_robot_operator.Api.Wire.{CreateMaintenanceWindowRequest, UpdateMaintenanceWindowRequest}
use uptime_robot_operator.Controller.Session.{Object, Cluster, Session, Action}
use uptime_robot_operator.Windows.Duration.{duration_minutes}

-- The references to monitors are their names.
pub record MaintenanceWindowSpec : Type 0 where
  pub sync_interval : Option ℤ
  pub prune : Bool
  pub account : String
  pub name : String
  pub interval : String
  pub start_date : String
  pub start_time : String
  pub duration : ℤ
  pub days : List ℤ
  pub auto_add_monitors : Bool
  pub monitor_refs : List String

-- MaintenanceWindowStatus, less the fields that every status has
pub record MaintenanceWindowExtra : Type 0 where
  pub monitor_count : ℕ

abbrev pub MaintenanceWindow : Type 0
MaintenanceWindow = Object MaintenanceWindowSpec MaintenanceWindowExtra

abbrev pub WindowCluster : Type 0 → Type 0
WindowCluster W = Cluster W MaintenanceWindowSpec MaintenanceWindowExtra

abbrev pub WindowSession : Type 0 → Type 0
WindowSession W = Session W MaintenanceWindowSpec MaintenanceWindowExtra

abbrev pub WindowAction : Type 0 → Type 0 → Type 0
WindowAction W A = Action W MaintenanceWindowSpec MaintenanceWindowExtra A

abbrev pub interval_once : String
interval_once = "once"

-- The date is sent for windows that are open once only.
unfoldable pub window_date : MaintenanceWindowSpec → String
window_date spec = if same_text spec.interval interval_once then spec.start_date else ""

-- the request of a creation, for the ids of the monitors that are ready
unfoldable pub create_window_request :
    MaintenanceWindowSpec → List ℤ → CreateMaintenanceWindowRequest
create_window_request spec ids = record {
  name = spec.name;
  auto_add_monitors = spec.auto_add_monitors;
  interval = spec.interval;
  date = window_date spec;
  time = spec.start_time;
  duration = duration_minutes spec.duration;
  days = spec.days;
  monitor_ids = if spec.auto_add_monitors then [] else ids;
}

unfoldable pub update_window_request :
    MaintenanceWindowSpec → List ℤ → UpdateMaintenanceWindowRequest
update_window_request spec ids = record {
  name = spec.name;
  auto_add_monitors = some spec.auto_add_monitors;
  interval = spec.interval;
  date = window_date spec;
  time = spec.start_time;
  duration = duration_minutes spec.duration;
  days = spec.days;
  monitor_ids = if spec.auto_add_monitors then none else some ids;
}
