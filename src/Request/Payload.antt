-- ===== src/Request/Payload.antt =====
-- internal/uptimerobot/v3types.go: the request bodies for monitors.
use uptime_robot_operator.Prelude.{ℕ, String, Bool, Option, List}
use uptime_robot_operator.Prelude.Int.{ℤ}

-- DNSRecordsConfig, of which the operator fills the first ten fields
pub record DnsRecordsConfig : Type 0 where
  pub a : List String
  pub aaaa : List String
  pub cname : List String
  pub mx : List String
  pub ns : List String
  pub txt : List String
  pub srv : List String
  pub ptr : List String
  pub soa : List String
  pub spf : List String
  pub dnskey : List String
  pub ds : List String
  pub nsec : List String
  pub nsec3 : List String

pub record MonitorConfig : Type 0 where
  pub dns_records : Option DnsRecordsConfig
  pub ssl_expiration_period_days : List ℤ

pub record AssignedAlertContactRequest : Type 0 where
  pub alert_contact_id : String
  pub threshold : ℤ
  pub recurrence : ℤ

pub record CreateMonitorRequest : Type 0 where
  pub friendly_name : String
  pub url : String
  pub type : String
  pub interval : ℤ
  pub timeout : ℤ
  pub grace_period : ℤ
  pub http_method : String
  pub http_username : String
  pub http_password : String
  pub http_auth_type : String
  pub post_type : String
  pub post_value : String
  pub keyword_type : String
  pub keyword_case_type : Option ℤ
  pub keyword_value : String
  pub port : ℕ
  pub assigned_alert_contacts : List AssignedAlertContactRequest
  pub config : Option MonitorConfig
  pub custom_http_headers : List (String × String)
  pub success_http_response_codes : List String
  pub check_ssl_errors : Option Bool
  pub tag_names : List String
  pub maintenance_windows_ids : List ℤ
  pub domain_expiration_reminder : Option Bool
  pub ssl_expiration_reminder : Option Bool
  pub follow_redirections : Option Bool
  pub response_time_threshold : Option ℤ
  pub regional_data : String
  pub group_id : Option ℤ

pub record UpdateMonitorRequest : Type 0 where
  pub friendly_name : String
  pub url : String
  pub interval : ℤ
  pub timeout : ℤ
  pub grace_period : ℤ
  pub http_method : String
  pub http_username : String
  pub http_password : String
  pub http_auth_type : String
  pub post_type : String
  pub post_value : String
  pub keyword_type : String
  pub keyword_case_type : Option ℤ
  pub keyword_value : String
  pub port : ℕ
  pub assigned_alert_contacts : List AssignedAlertContactRequest
  pub config : Option MonitorConfig
  pub custom_http_headers : List (String × String)
  pub success_http_response_codes : List String
  pub check_ssl_errors : Option Bool
  pub tag_names : List String
  pub maintenance_windows_ids : List ℤ
  pub domain_expiration_reminder : Option Bool
  pub ssl_expiration_reminder : Option Bool
  pub follow_redirections : Option Bool
  pub response_time_threshold : Option ℤ
  pub regional_data : String
  pub group_id : Option ℤ
