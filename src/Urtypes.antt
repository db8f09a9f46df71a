-- ===== src/Urtypes.antt =====
-- internal/uptimerobot/urtypes: the enumerations of a monitor and their texts in the API. Each Go
-- type is a uint8 whose named values start at 1; `other` is any value with no name.
pub mod Laws
pub mod Enumer
use uptime_robot_operator.Prelude.{
  ℕ, String, Bool, true, false, [], ◌∷◌, same_text, ◌==◌, if◌then◌else◌,
}
use uptime_robot_operator.Prelude.Int.{pos}
use uptime_robot_operator.Text.{concat}
use uptime_robot_operator.Strconv.{itoa}

pub data MonitorType : Type 0 where
  type_https type_keyword type_ping type_port type_heartbeat type_dns : MonitorType
  other : ℕ → MonitorType

pub data MonitorAuthType : Type 0 where
  auth_basic auth_digest : MonitorAuthType
  other : ℕ → MonitorAuthType

pub data KeywordType : Type 0 where
  keyword_exists keyword_not_exists : KeywordType
  other : ℕ → KeywordType

pub data HttpMethod : Type 0 where
  method_head method_get method_post method_put method_patch method_delete : HttpMethod
  method_options : HttpMethod
  other : ℕ → HttpMethod

pub data PostType : Type 0 where
  type_key_value type_raw_data : PostType
  other : ℕ → PostType

abbrev pub monitor_paused : ℕ
monitor_paused = 0

abbrev pub monitor_running : ℕ
monitor_running = 1

-- == on MonitorType
unfoldable pub same_type : MonitorType → MonitorType → Bool
same_type type_https type_https = true
same_type type_keyword type_keyword = true
same_type type_ping type_ping = true
same_type type_port type_port = true
same_type type_heartbeat type_heartbeat = true
same_type type_dns type_dns = true
same_type (MonitorType.other n) (MonitorType.other m) = n == m
same_type _ _ = false

-- MonitorType.String
unfoldable pub type_name : MonitorType → String
type_name type_https = "HTTPS"
type_name type_keyword = "Keyword"
type_name type_ping = "Ping"
type_name type_port = "Port"
type_name type_heartbeat = "Heartbeat"
type_name type_dns = "DNS"
type_name (MonitorType.other n) = concat ("MonitorType(" ∷ itoa (pos n) ∷ ")" ∷ [])

-- MonitorType.ToAPIString
unfoldable pub to_api_string : MonitorType → String
to_api_string type_https = "HTTP"
to_api_string type_keyword = "KEYWORD"
to_api_string type_ping = "PING"
to_api_string type_port = "PORT"
to_api_string type_heartbeat = "HEARTBEAT"
to_api_string type_dns = "DNS"
to_api_string (MonitorType.other n) = "HTTP"

-- MonitorTypeFromAPIString
unfoldable pub monitor_type_from_api_string : String → MonitorType
unfolding same_text
monitor_type_from_api_string s =
    if same_text s "HTTP"
    then type_https
    else if same_text s "KEYWORD"
    then type_keyword
    else if same_text s "PING"
    then type_ping
    else if same_text s "PORT"
    then type_port
    else if same_text s "HEARTBEAT"
    then type_heartbeat
    else if same_text s "DNS"
    then type_dns
    else type_https

-- httpMethodToString of client.go
unfoldable pub http_method_to_string : HttpMethod → String
http_method_to_string method_head = "HEAD"
http_method_to_string method_get = "GET"
http_method_to_string method_post = "POST"
http_method_to_string method_put = "PUT"
http_method_to_string method_patch = "PATCH"
http_method_to_string method_delete = "DELETE"
http_method_to_string method_options = "OPTIONS"
http_method_to_string (HttpMethod.other n) = "HEAD"

-- authTypeToString of client.go
unfoldable pub auth_type_to_string : MonitorAuthType → String
auth_type_to_string auth_basic = "HTTP_BASIC"
auth_type_to_string auth_digest = "DIGEST"
auth_type_to_string (MonitorAuthType.other n) = "NONE"

-- postTypeToString of client.go
unfoldable pub post_type_to_string : PostType → String
post_type_to_string type_key_value = "KEY_VALUE"
post_type_to_string type_raw_data = "RAW_JSON"
post_type_to_string (PostType.other n) = "KEY_VALUE"

-- keywordTypeToString of client.go
unfoldable pub keyword_type_to_string : KeywordType → String
keyword_type_to_string keyword_exists = "ALERT_EXISTS"
keyword_type_to_string keyword_not_exists = "ALERT_NOT_EXISTS"
keyword_type_to_string (KeywordType.other n) = "ALERT_EXISTS"
