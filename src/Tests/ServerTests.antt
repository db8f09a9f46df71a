-- ===== src/Tests/ServerTests.antt =====
-- Tests of the model of internal/uptimerobot/uptimerobottest/server.go.
use uptime_robot_operator.Prelude.{
  ◌≡◌, refl, true, false, some, List, [], ◌∷◌, map, keep, same_text, if◌then◌else◌,
}
use uptime_robot_operator.Text.Affix.{trim_prefix, trim_suffix}
use uptime_robot_operator.Strconv.{atoi}
use uptime_robot_operator.TestServer.{
  Integration, Call, file, error_reply, new_server_state, is_monitor_deleted, serve, served,
  mark_monitor_deleted, create_integration, delete_integration,
}
use uptime_robot_operator.TestServer.Laws.{Event, at, call_of, after_events, served-read}

-- deleted, updated, and deleted again
abbrev history : List Event
history =
    Event.removed "7"
    ∷ Event.updated "7"
    ∷ Event.removed "8"
    ∷ Event.removed "7"
    ∷ Event.paused "7"
    ∷ []

abbrev ours : Integration
ours = record {
  friendly_name = "ours";
  enable_notifications_for = "Down";
  ssl_expiration_reminder = true;
  value = "https://hooks";
  custom_value = "";
}

-- the path of a deletion may end in a slash, which that of an update loses
slash_kept :
    (is_monitor_deleted "7/" (served (Call.delete_monitor "/monitors/7/" ∷ []) new_server_state)
      ≡ true)
    × (is_monitor_deleted "7" (served (Call.delete_monitor "/monitors/7/" ∷ []) new_server_state)
        ≡ false)
unfolding served is_monitor_deleted trim_prefix same_text mark_monitor_deleted
slash_kept = (refl, refl)

abbrev calls : List Call
calls = Call.post_integration (some ours) ∷ Call.delete_at "/integrations/101" ∷ []

created_and_deleted : (served calls new_server_state).integrations ≡ (102, ours) ∷ []
unfolding served create_integration delete_integration trim_prefix same_text keep atoi
created_and_deleted = refl

served-read_example :
    (serve (Call.get_monitors (at "7")) (served (map call_of history) new_server_state)).0 ≡ (
      if after_events "7" history (is_monitor_deleted "7" new_server_state)
      then (404, error_reply "monitor not found")
      else (200, file "monitor.json"))
unfolding same_text trim_suffix
served-read_example =
    served-read "7" history new_server_state refl
      ((refl, refl), ((refl, refl), ((refl, refl), ((refl, refl), (tt, tt)))))
