-- ===== src/Tests/RequestTests.antt =====
-- Tests of the model of the monitor requests of internal/uptimerobot/client.go.
use uptime_robot_operator.Prelude.{◌≡◌, refl, true, none, some, List, [], ◌∷◌}
use uptime_robot_operator.Prelude.Int.{pos}
use uptime_robot_operator.Urtypes.{type_keyword, method_get, keyword_exists}
use uptime_robot_operator.Monitor.{MonitorValues, MonitorContact}
use uptime_robot_operator.Request.Build.{
  create_request, build_create_monitor_request, build_update_monitor_request,
}
use uptime_robot_operator.Request.Laws.{as_update, map_option, update-eq-create}

abbrev pub site : MonitorValues
site = record {
  name = "site";
  url = "https://example.com/";
  type = type_keyword;
  interval = some (pos 300_000_000_000);
  status = 1;
  timeout = some (pos 30_000_000_000);
  grace_period = some (pos 90_000_000_000_000);
  method = method_get;
  post = none;
  keyword = some (record { type = keyword_exists; case_sensitive = some true; value = "ok" });
  port = none;
  auth = none;
  dns = none;
  heartbeat = none;
  tags = [];
  custom_http_headers = [];
  success_http_response_codes = [];
  check_ssl_errors = none;
  ssl_expiration_reminder = none;
  domain_expiration_reminder = none;
  follow_redirections = none;
  response_time_threshold = none;
  region = "";
  group_id = none;
  maintenance_window_ids = [];
}

abbrev two_contacts : List MonitorContact
two_contacts =
    record {
      id = "7";
      common = record { threshold = pos 60_000_000_000; recurrence = pos 90_000_000_000 };
    }
    ∷ record { id = ""; common = record { threshold = pos 0; recurrence = pos 0 } }
    ∷ []

site_capped :
    (create_request site two_contacts (pos 300_000_000_000) (pos 30_000_000_000)).grace_period
    ≡ pos 86400
unfolding create_request
site_capped = refl

update-eq-create_example :
    build_update_monitor_request site two_contacts
    ≡ map_option (as_update site two_contacts) (build_create_monitor_request site two_contacts)
update-eq-create_example = update-eq-create site two_contacts
