-- ===== src/TestServer.antt =====
-- internal/uptimerobot/uptimerobottest/server.go: the server that stands in for UptimeRobot in the tests. The
-- routes of net/http's ServeMux are the constructors of a call, and the JSON decoder is an argument.
pub mod MarkLaws
pub mod Laws
use uptime_robot_operator.Prelude.{
  ℕ, suc, String, Bool, true, false, ◌&&◌, ◌||◌, not, Option, none, some, List, [], ◌∷◌, map, keep,
  same_text, ◌==◌, if◌then◌else◌,
}
use uptime_robot_operator.Prelude.Int.{ℤ, pos, negsuc}
use uptime_robot_operator.Text.{is_blank}
use uptime_robot_operator.Text.Affix.{trim_prefix, trim_suffix}
use uptime_robot_operator.Strconv.{atoi}

-- the fields of an integration that are not the same in all of them
pub record Integration : Type 0 where
  pub friendly_name : String
  pub enable_notifications_for : String
  pub ssl_expiration_reminder : Bool
  pub value : String
  pub custom_value : String

-- ServerState: a set, and a map whose keys are the ids
pub record ServerState : Type 0 where
  pub deleted_monitors : List String
  pub integrations : List (ℕ × Integration)
  pub next_integration : ℕ

abbrev default_integrations : List (ℕ × Integration)
default_integrations =
    (
      101,
      record {
        friendly_name = "Mock Slack";
        enable_notifications_for = "Down";
        ssl_expiration_reminder = false;
        value = "https://hooks.slack.com/services/T000/B000/MOCK";
        custom_value = "mock";
      },
    )
    ∷ []

-- NewServerState, and Reset
abbrev pub new_server_state : ServerState
new_server_state = record {
  deleted_monitors = [];
  integrations = default_integrations;
  next_integration = 102;
}

-- deletedMonitors[id] = true
unfoldable pub mark_monitor_deleted : String → ServerState → ServerState
mark_monitor_deleted id s = record s { deleted_monitors = id ∷ s.deleted_monitors }

-- delete(deletedMonitors, id)
unfoldable pub mark_monitor_active : String → ServerState → ServerState
unfolding keep
mark_monitor_active id s = record s {
  deleted_monitors = keep (λ d. not (same_text d id)) s.deleted_monitors;
}

abbrev pub among : String → List String → Bool
among id [] = false
among id (d ∷ more) = same_text d id || among id more

unfoldable pub is_monitor_deleted : String → ServerState → Bool
is_monitor_deleted id s = among id s.deleted_monitors

-- integrations[id] = record, where the id is a new one or not
unfoldable pub create_integration : Integration → ServerState → (ℕ × Integration) × ServerState
unfolding keep
create_integration i s =
    let id = s.next_integration in
    (
      (id, i),
      record s {
        integrations = (id, i) ∷ keep (λ e. not (e.0 == id)) s.integrations;
        next_integration = suc id;
      },
    )

unfoldable pub delete_integration : ℤ → ServerState → ServerState
unfolding keep
delete_integration (pos id) s = record s {
  integrations = keep (λ e. not (e.0 == id)) s.integrations;
}
delete_integration (negsuc n) s = s

-- a request, with its path where the handler reads it
pub data Call : Type 0 where
  get_monitors get_windows get_groups patch_monitor delete_monitor : String → Call
  pause_monitor start_monitor delete_at : String → Call
  post_monitor get_user get_contacts post_window patch_window delete_window : Call
  post_group patch_group delete_group get_integrations : Call
  -- what the JSON decoder makes of the body
  post_integration : Option Integration → Call

-- the body of an answer: a file of the responses, an error text, or a value
pub data Reply : Type 0 where
  file error_reply : String → Reply
  empty_reply : Reply
  integration_reply : ℕ × Integration → Reply
  integrations_reply : List (ℕ × Integration) → Reply

abbrev pub Answer : Type 0
Answer = (ℕ × Reply) × ServerState

-- `id != "" && id != r.URL.Path`
abbrev pub names_one : String → String → Bool
names_one id path = not (is_blank id) && not (same_text id path)

abbrev pub missing : ServerState → Answer
missing s = ((404, error_reply "monitor not found"), s)

unfoldable pub handle_get_monitors : String → ServerState → Answer
unfolding trim_prefix
handle_get_monitors path s =
    let id = trim_prefix path "/monitors/" in
    if names_one id path
    then (if is_monitor_deleted id s then missing s else ((200, file "monitor.json"), s))
    else ((200, file "monitors.json"), s)

unfoldable pub handle_update_monitor : String → ServerState → Answer
unfolding trim_prefix trim_suffix
handle_update_monitor path s =
    let id = trim_suffix (trim_prefix path "/monitors/") "/" in
    ((200, file "monitor_update.json"), if names_one id path then mark_monitor_active id s else s)

unfoldable pub handle_delete_monitor : String → ServerState → Answer
unfolding trim_prefix
handle_delete_monitor path s =
    let id = trim_prefix path "/monitors/" in
    ((204, empty_reply), if names_one id path then mark_monitor_deleted id s else s)

-- handlePauseMonitor and handleStartMonitor, which differ in the end of the path
unfoldable pub handle_state : String → String → ServerState → Answer
unfolding trim_prefix trim_suffix
handle_state verb path s =
    let id = trim_suffix (trim_prefix path "/monitors/") verb in
    if names_one id path && is_monitor_deleted id s then missing s else ((204, empty_reply), s)

-- handleGetMaintenanceWindows and handleGetMonitorGroups: one file, or the file of a list
unfoldable pub handle_get : String → String → String → String → ServerState → Answer
unfolding trim_prefix
handle_get prefix one all path s =
    ((200, file (if names_one (trim_prefix path prefix) path then one else all)), s)

unfoldable pub handle_create_integration : Option Integration → ServerState → Answer
handle_create_integration none s = ((400, error_reply "invalid json"), s)
handle_create_integration (some i) s =
    let (e, t) = create_integration i s in ((201, integration_reply e), t)

abbrev pub deleted_numbered : Option ℤ → ServerState → ServerState
deleted_numbered none s = s
deleted_numbered (some id) s = delete_integration id s

unfoldable pub handle_delete_integration : String → ServerState → Answer
unfolding trim_prefix
handle_delete_integration path s =
    let id = trim_prefix path "/integrations/" in
    ((204, empty_reply), if names_one id path then deleted_numbered (atoi id) s else s)

-- the handler of a call (NewServerWithState)
unfoldable pub serve : Call → ServerState → Answer
unfolding handle_get_monitors handle_update_monitor handle_delete_monitor handle_state handle_get
    handle_create_integration handle_delete_integration
serve (Call.get_monitors path) s = handle_get_monitors path s
serve Call.post_monitor s = ((201, file "monitor_create.json"), s)
serve (Call.patch_monitor path) s = handle_update_monitor path s
serve (Call.delete_monitor path) s = handle_delete_monitor path s
serve (Call.pause_monitor path) s = handle_state "/pause" path s
serve (Call.start_monitor path) s = handle_state "/start" path s
serve Call.get_user s = ((200, file "user_me.json"), s)
serve Call.get_contacts s = ((200, file "alert_contacts.json"), s)
serve (Call.get_windows path) s =
    handle_get "/maintenance-windows/" "maintenance_window.json" "maintenance_windows.json" path s
serve Call.post_window s = ((201, file "maintenance_window_create.json"), s)
serve Call.patch_window s = ((200, file "maintenance_window_update.json"), s)
serve Call.delete_window s = ((204, empty_reply), s)
serve (Call.get_groups path) s =
    handle_get "/monitor-groups/" "monitor_group.json" "monitor_groups.json" path s
serve Call.post_group s = ((201, file "monitor_group_create.json"), s)
serve Call.patch_group s = ((200, file "monitor_group_update.json"), s)
serve Call.delete_group s = ((204, empty_reply), s)
serve Call.get_integrations s = ((200, integrations_reply s.integrations), s)
serve (Call.post_integration body) s = handle_create_integration body s
serve (Call.delete_at path) s = handle_delete_integration path s

-- the calls one after another
unfoldable pub served : List Call → ServerState → ServerState
unfolding serve
served [] s = s
served (c ∷ more) s = served more (serve c s).1
