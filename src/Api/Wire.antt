-- ===== src/Api/Wire.antt =====
-- internal/uptimerobot/v3types.go: the requests and responses for alert contacts, the user,
-- integrations, maintenance windows and monitor groups. A nullable field is an option; a slice of Go
-- is a list, and a pointer to one an option of it.
use uptime_robot_operator.Prelude.{String, Bool, Option, List}
use uptime_robot_operator.Prelude.Int.{ℤ}

pub record AlertContactResponse : Type 0 where
  pub id : ℤ
  pub friendly_name : Option String
  pub type : String
  pub status : String
  pub value : String

pub record UserMeResponse : Type 0 where
  pub email : String
  pub full_name : String
  pub monitors_count : ℤ
  pub monitor_limit : ℤ
  pub sms_credits : ℤ

pub record SlackIntegrationData : Type 0 where
  pub friendly_name : String
  pub enable_notifications_for : String
  pub ssl_expiration_reminder : Bool
  pub webhook_url : String
  pub custom_value : String

pub record CreateSlackIntegrationRequest : Type 0 where
  pub type : String
  pub payload : SlackIntegrationData

pub record IntegrationResponse : Type 0 where
  pub id : ℤ
  pub friendly_name : Option String
  pub enable_notifications_for : Option String
  pub type : Option String
  pub status : Option String
  pub ssl_expiration_reminder : Bool
  pub value : String
  pub custom_value : String
  pub custom_value_2 : String
  pub custom_value_3 : String
  pub custom_value_4 : String

pub record IntegrationsListResponse : Type 0 where
  pub next_link : Option String
  pub integrations : List IntegrationResponse

pub record CreateMaintenanceWindowRequest : Type 0 where
  pub name : String
  pub auto_add_monitors : Bool
  pub interval : String
  pub date : String
  pub time : String
  pub duration : ℤ
  pub days : List ℤ
  pub monitor_ids : List ℤ

pub record UpdateMaintenanceWindowRequest : Type 0 where
  pub name : String
  pub auto_add_monitors : Option Bool
  pub interval : String
  pub date : String
  pub time : String
  pub duration : ℤ
  pub days : List ℤ
  pub monitor_ids : Option (List ℤ)

pub record MaintenanceWindowResponse : Type 0 where
  pub id : ℤ
  pub user_id : ℤ
  pub name : String
  pub auto_add_monitors : Bool
  pub interval : String
  pub date : String
  pub time : String
  pub duration : ℤ
  pub days : List ℤ
  pub monitor_ids : List ℤ
  pub status : String
  pub created : String

pub record MaintenanceWindowsListResponse : Type 0 where
  pub maintenance_windows : List MaintenanceWindowResponse
  pub next_link : Option String

pub record GroupCreationWireFormat : Type 0 where
  pub name : String
  pub monitor_ids : List ℤ
  pub group_ids : List ℤ

pub record GroupUpdateWireFormat : Type 0 where
  pub name : String
  pub monitor_ids : Option (List ℤ)
  pub group_ids : List ℤ

pub record GroupWireFormat : Type 0 where
  pub id : ℤ
  pub name : String
  pub created_at : Option String
  pub updated_at : Option String
  pub monitor_ids : List ℤ

pub record GroupListWireFormat : Type 0 where
  pub groups : List GroupWireFormat
  pub next_link : Option String
