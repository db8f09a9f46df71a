-- ===== src/Tests/DuplicateTests.antt =====
-- Tests of the model of the monitor searches of internal/uptimerobot/client.go.
use uptime_robot_operator.Prelude.{
  ◌≡◌, refl, none, some, List, [], ◌∷◌, same_text, if◌then◌else◌, String,
}
use uptime_robot_operator.Prelude.Int.{pos}
use uptime_robot_operator.Text.{trim_space, trim_slash, is_blank}
use uptime_robot_operator.Duplicate.{
  MonitorResponse, normalize_url, scan, is_match, select_duplicate_monitor_candidate,
}
use uptime_robot_operator.Duplicate.Laws.{matching, only, select_duplicate_monitor_candidate_unique}
use uptime_robot_operator.Tests.RequestTests.{site}

abbrev pub listed : String → String → MonitorResponse
listed name url = record {
  id = pos 7;
  friendly_name = name;
  url = url;
  type = "HTTP";
  status = "UP";
}

abbrev monitors : List MonitorResponse
monitors = listed "other" "https://example.com" ∷ listed " site" "https://example.com" ∷ []

adopted :
    select_duplicate_monitor_candidate monitors site ≡ some (listed " site" "https://example.com")
unfolding select_duplicate_monitor_candidate scan is_match same_text normalize_url trim_space
    trim_slash
adopted = refl

select_duplicate_monitor_candidate_unique_example :
    select_duplicate_monitor_candidate monitors site ≡ (
      if is_blank (trim_space site.name)
      then none
      else only (matching (trim_space site.name) (normalize_url site.url) monitors))
select_duplicate_monitor_candidate_unique_example =
    select_duplicate_monitor_candidate_unique monitors site
