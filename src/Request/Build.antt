-- ===== src/Request/Build.antt =====
-- internal/uptimerobot/client.go: buildCreateMonitorRequest and buildUpdateMonitorRequest.
use uptime_robot_operator.Prelude.{String, Option, none, some, List, if◌then◌else◌}
use uptime_robot_operator.Prelude.Int.{ℤ}
use uptime_robot_operator.Urtypes.{
  type_heartbeat, type_dns, same_type, to_api_string, http_method_to_string,
}
use uptime_robot_operator.Monitor.{MonitorValues, MonitorContact}
use uptime_robot_operator.Request.Payload.{CreateMonitorRequest, UpdateMonitorRequest}
use uptime_robot_operator.Request.Fields.{
  seconds, grace_period_seconds, auth_fields, post_fields, keyword_fields, port_field, config_field,
  contacts_to_v3_format,
}

-- a body that wants both durations: `none` is the panic at a nil pointer
abbrev pub both {ℓ} : {A : Type ℓ} → (ℤ → ℤ → A) → Option ℤ → Option ℤ → Option A
both f (some i) (some t) = some (f i t)
both f _ _ = none

module _ (m : MonitorValues) (contacts : List MonitorContact) where
  -- buildCreateMonitorRequest, where the interval and the timeout are there
  unfoldable pub create_request : ℤ → ℤ → CreateMonitorRequest
  unfolding grace_period_seconds auth_fields post_fields keyword_fields port_field config_field
      seconds
  create_request interval timeout = record {
    friendly_name = m.name;
    url = m.url;
    type = to_api_string m.type;
    interval = seconds interval;
    timeout = seconds timeout;
    grace_period = grace_period_seconds m.grace_period;
    http_method = http_method_to_string m.method;
    http_username = (auth_fields m.auth).1;
    http_password = (auth_fields m.auth).2;
    http_auth_type = (auth_fields m.auth).0;
    post_type = (post_fields m.method m.post).0;
    post_value = (post_fields m.method m.post).1;
    keyword_type = (keyword_fields m.type m.keyword).0;
    keyword_case_type = (keyword_fields m.type m.keyword).1;
    keyword_value = (keyword_fields m.type m.keyword).2;
    port = port_field m.type m.port;
    assigned_alert_contacts = contacts_to_v3_format contacts;
    config = config_field m.type m.dns;
    custom_http_headers = m.custom_http_headers;
    success_http_response_codes = m.success_http_response_codes;
    check_ssl_errors = m.check_ssl_errors;
    tag_names = m.tags;
    maintenance_windows_ids = m.maintenance_window_ids;
    domain_expiration_reminder = m.domain_expiration_reminder;
    ssl_expiration_reminder = m.ssl_expiration_reminder;
    follow_redirections = m.follow_redirections;
    response_time_threshold = m.response_time_threshold;
    regional_data = m.region;
    group_id = m.group_id;
  }

  -- UptimeRobot rejects a change of the URL of DNS monitors; a heartbeat has none.
  unfoldable pub update_url : String
  update_url =
      if same_type m.type type_dns
      then ""
      else if same_type m.type type_heartbeat
      then ""
      else m.url

  -- buildUpdateMonitorRequest, where the interval and the timeout are there
  unfoldable pub update_request : ℤ → ℤ → UpdateMonitorRequest
  unfolding grace_period_seconds auth_fields post_fields keyword_fields port_field config_field
      seconds update_url
  update_request interval timeout = record {
    friendly_name = m.name;
    url = update_url;
    interval = seconds interval;
    timeout = seconds timeout;
    grace_period = grace_period_seconds m.grace_period;
    http_method = http_method_to_string m.method;
    http_username = (auth_fields m.auth).1;
    http_password = (auth_fields m.auth).2;
    http_auth_type = (auth_fields m.auth).0;
    post_type = (post_fields m.method m.post).0;
    post_value = (post_fields m.method m.post).1;
    keyword_type = (keyword_fields m.type m.keyword).0;
    keyword_case_type = (keyword_fields m.type m.keyword).1;
    keyword_value = (keyword_fields m.type m.keyword).2;
    port = port_field m.type m.port;
    assigned_alert_contacts = contacts_to_v3_format contacts;
    config = config_field m.type m.dns;
    custom_http_headers = m.custom_http_headers;
    success_http_response_codes = m.success_http_response_codes;
    check_ssl_errors = m.check_ssl_errors;
    tag_names = m.tags;
    maintenance_windows_ids = m.maintenance_window_ids;
    domain_expiration_reminder = m.domain_expiration_reminder;
    ssl_expiration_reminder = m.ssl_expiration_reminder;
    follow_redirections = m.follow_redirections;
    response_time_threshold = m.response_time_threshold;
    regional_data = m.region;
    group_id = m.group_id;
  }

  -- buildCreateMonitorRequest: `none` is the panic at a nil interval or timeout.
  unfoldable pub build_create_monitor_request : Option CreateMonitorRequest
  unfolding create_request
  build_create_monitor_request = both create_request m.interval m.timeout

  -- buildUpdateMonitorRequest: `none` is the panic at a nil interval or timeout.
  unfoldable pub build_update_monitor_request : Option UpdateMonitorRequest
  unfolding update_request
  build_update_monitor_request = both update_request m.interval m.timeout
