-- ===== src/Monitor.antt =====
-- api/v1alpha1/monitor_types.go: what a Monitor resource asks for. Durations are in nanoseconds; a
-- pointer is an Option.
pub mod Resource
use uptime_robot_operator.Prelude.{ℕ, String, Bool, Option, List}
use uptime_robot_operator.Prelude.Int.{ℤ}
use uptime_robot_operator.Urtypes.{MonitorType, MonitorAuthType, KeywordType, HttpMethod, PostType}

pub record MonitorPost : Type 0 where
  pub type : PostType
  pub content_type : ℕ
  pub value : String

pub record MonitorKeyword : Type 0 where
  pub type : KeywordType
  pub case_sensitive : Option Bool
  pub value : String

pub record MonitorPort : Type 0 where
  pub number : ℕ

pub record MonitorAuth : Type 0 where
  pub type : MonitorAuthType
  pub username : String
  pub password : String
  pub secret_name : String
  pub username_key : String
  pub password_key : String

pub record MonitorDns : Type 0 where
  pub a : List String
  pub aaaa : List String
  pub cname : List String
  pub mx : List String
  pub ns : List String
  pub txt : List String
  pub srv : List String
  pub ptr : List String
  pub soa : List String
  pub spf : List String
  pub ssl_expiration_period_days : List ℤ

pub record MonitorHeartbeat : Type 0 where
  pub interval : Option ℤ

pub record MonitorValues : Type 0 where
  pub name : String
  pub url : String
  pub type : MonitorType
  pub interval : Option ℤ
  pub status : ℕ
  pub timeout : Option ℤ
  pub grace_period : Option ℤ
  pub method : HttpMethod
  pub post : Option MonitorPost
  pub keyword : Option MonitorKeyword
  pub port : Option MonitorPort
  pub auth : Option MonitorAuth
  pub dns : Option MonitorDns
  pub heartbeat : Option MonitorHeartbeat
  pub tags : List String
  pub custom_http_headers : List (String × String)
  pub success_http_response_codes : List String
  pub check_ssl_errors : Option Bool
  pub ssl_expiration_reminder : Option Bool
  pub domain_expiration_reminder : Option Bool
  pub follow_redirections : Option Bool
  pub response_time_threshold : Option ℤ
  pub region : String
  pub group_id : Option ℤ
  pub maintenance_window_ids : List ℤ

pub record MonitorContactCommon : Type 0 where
  pub threshold : ℤ
  pub recurrence : ℤ

pub record MonitorContact : Type 0 where
  pub id : String
  pub common : MonitorContactCommon
  pub open common use *
