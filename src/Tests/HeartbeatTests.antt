-- ===== src/Tests/HeartbeatTests.antt =====
-- Tests of the model of the heartbeat URLs of internal/controller/monitor_controller.go.
use uptime_robot_operator.Prelude.{◌≡◌, refl, true, false, same_text}
use uptime_robot_operator.Text.{is_blank, trim_space, trim_left, trim_right, trim_slash, has_prefix}
use uptime_robot_operator.Heartbeat.{
  is_absolute, with_scheme, normalize_heartbeat_base_url, is_prefixed_heartbeat_key,
}

abc_is_key : is_blank (trim_space "abc") ≡ false
unfolding trim_space trim_left trim_right same_text
abc_is_key = refl

key_kept : is_prefixed_heartbeat_key "m12-abc" ≡ true
unfolding is_prefixed_heartbeat_key same_text
key_kept = refl

-- a base URL of a scheme only loses one of its slashes
scheme_only : normalize_heartbeat_base_url "https://" ≡ "https:/"
unfolding normalize_heartbeat_base_url trim_space trim_left trim_right same_text with_scheme
    is_absolute has_prefix trim_slash
scheme_only = refl
