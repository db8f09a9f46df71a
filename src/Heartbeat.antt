-- ===== src/Heartbeat.antt =====
-- internal/controller/monitor_controller.go: the URL that a heartbeat monitor is called at, and the
-- label of a monitor's state.
pub mod Laws
use Prim.Native.Char.{Char, code}
use uptime_robot_operator.Prelude.{
  ℕ, zero, suc, ◌+◌, String, Bool, true, false, ◌&&◌, ◌||◌, not, Option, none, some, [], ◌∷◌, leb,
  ltb, ◌==◌, if◌then◌else◌,
}
use uptime_robot_operator.Text.{has_prefix, trim_space, trim_slash, concat, is_blank}
use uptime_robot_operator.Urtypes.{monitor_paused}

abbrev pub default_heartbeat_base_url : String
default_heartbeat_base_url = "https://heartbeat.uptimerobot.com"

-- monitorStateLabel
unfoldable pub monitor_state_label : ℕ → String
monitor_state_label status = if status == monitor_paused then "paused" else "running"

-- the test for an absolute URL
unfoldable pub is_absolute : String → Bool
is_absolute s = has_prefix s "http://" || has_prefix s "https://"

unfoldable pub with_scheme : String → String
with_scheme trimmed =
    if not (is_absolute trimmed) then concat ("https://" ∷ trimmed ∷ []) else trimmed

-- normalizeHeartbeatBaseURL
unfoldable pub normalize_heartbeat_base_url : String → String
normalize_heartbeat_base_url base_url =
    let trimmed = trim_space base_url in
    if is_blank trimmed then default_heartbeat_base_url else trim_slash (with_scheme trimmed)

-- len(s), in code points. The only test of it is for less than 3, where a text that passes the tests
-- that follow it has an `m`, a digit and a dash, one byte each.
size : String → ℕ
size String.[] = 0
size (String.◌∷◌ c s) = suc (size s)

in_front : Char → Option String → Option String
in_front c none = none
in_front c (some s) = some (String.◌∷◌ c s)

-- rest[:strings.IndexByte(rest, '-')], and none where there is no dash
before_dash : String → Option String
before_dash String.[] = none
before_dash (String.◌∷◌ c s) =
    let rest = in_front c (before_dash s) in if code c == b'-' then some "" else rest

-- the loop over the digits
all_digits : String → Bool
all_digits String.[] = true
all_digits (String.◌∷◌ c s) = not (ltb (code c) b'0' || ltb b'9' (code c)) && all_digits s

-- The text between the `m` and the first dash: an index of 0 or less is refused.
digits_before_dash : Option String → Bool
digits_before_dash none = false
digits_before_dash (some s) = not (is_blank s) && all_digits s

after_m : String → Bool
after_m String.[] = false
after_m (String.◌∷◌ c rest) = code c == b'm' && digits_before_dash (before_dash rest)

-- isPrefixedHeartbeatKey
unfoldable pub is_prefixed_heartbeat_key : String → Bool
unfolding after_m before_dash in_front digits_before_dash all_digits size
is_prefixed_heartbeat_key value = leb 3 (size value) && after_m value

-- what follows the base URL and its slash
unfoldable pub key_path : String → String → String
key_path monitor_id key =
    if is_prefixed_heartbeat_key key
    then key
    else if not (is_blank monitor_id)
    then concat ("m" ∷ monitor_id ∷ "-" ∷ key ∷ [])
    else key

-- buildHeartbeatURL
unfoldable pub build_heartbeat_url : String → String → String → String
build_heartbeat_url base_url monitor_id api_url =
    let trimmed = trim_space api_url in
    if is_blank trimmed
    then ""
    else if is_absolute trimmed
    then trimmed
    else concat (normalize_heartbeat_base_url base_url ∷ "/" ∷ key_path monitor_id trimmed ∷ [])
