-- ===== src/Groups/Resource.antt =====
-- api/v1alpha1/monitorgroup_types.go: the MonitorGroup resource; and the requests that
-- internal/controller/monitorgroup_controller.go makes of one.
use uptime_robot_operator.Prelude.{ℕ, String, Bool, Option, some, List}
use uptime_robot_operator.Prelude.Int.{ℤ}
use uptime_robot_operator.Api.Wire.{GroupCreationWireFormat, GroupUpdateWireFormat}
use uptime_robot_operator.Controller.Session.{Object, Cluster, Session, Action}

-- The references to monitors are their names.
pub record MonitorGroupSpec : Type 0 where
  pub sync_interval : Option ℤ
  pub prune : Bool
  pub account : String
  pub friendly_name : String
  pub monitors : List String
  pub pull_from_groups : List ℤ

-- MonitorGroupStatus, less the fields that every status has
pub record MonitorGroupExtra : Type 0 where
  pub monitor_count : ℕ
  pub last_reconciled : Option ℤ

abbrev pub MonitorGroup : Type 0
MonitorGroup = Object MonitorGroupSpec MonitorGroupExtra

abbrev pub GroupCluster : Type 0 → Type 0
GroupCluster W = Cluster W MonitorGroupSpec MonitorGroupExtra

abbrev pub GroupSession : Type 0 → Type 0
GroupSession W = Session W MonitorGroupSpec MonitorGroupExtra

abbrev pub GroupAction : Type 0 → Type 0 → Type 0
GroupAction W A = Action W MonitorGroupSpec MonitorGroupExtra A

unfoldable pub group_creation : MonitorGroupSpec → List ℤ → GroupCreationWireFormat
group_creation spec ids = record {
  name = spec.friendly_name;
  monitor_ids = ids;
  group_ids = spec.pull_from_groups;
}

unfoldable pub group_update : MonitorGroupSpec → List ℤ → GroupUpdateWireFormat
group_update spec ids = record {
  name = spec.friendly_name;
  monitor_ids = some ids;
  group_ids = spec.pull_from_groups;
}
