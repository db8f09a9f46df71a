-- ===== src/Urtypes/Laws.antt =====
-- The texts of the monitor types in the API read back as the types.
use uptime_robot_operator.Prelude.{◌≡◌, refl, true, arith}
use uptime_robot_operator.Urtypes.{
  MonitorType, type_https, type_keyword, type_ping, type_port, type_heartbeat, type_dns, same_type,
  to_api_string, monitor_type_from_api_string,
}

-- A type that has no name is read back from its text as HTTPS, every other type as itself.
abbrev pub named : MonitorType → MonitorType
named (MonitorType.other n) = type_https
named t = t

-- The API text of a monitor type reads back as that type, where the type is one of the six named
-- values; any other value reads back as HTTPS.
pub from-to_api_string :
    (t : MonitorType) → monitor_type_from_api_string (to_api_string t) ≡ named t
unfolding monitor_type_from_api_string to_api_string
from-to_api_string type_https = refl
from-to_api_string type_keyword = refl
from-to_api_string type_ping = refl
from-to_api_string type_port = refl
from-to_api_string type_heartbeat = refl
from-to_api_string type_dns = refl
from-to_api_string (MonitorType.other n) = refl

-- The comparison of monitor types is equality.
pub same_type-eq : (s t : MonitorType) → same_type s t ≡ true → s ≡ t
unfolding same_type
same_type-eq s t h = ground arith

pub same_type_refl : (t : MonitorType) → same_type t t ≡ true
unfolding same_type
same_type_refl type_https = refl
same_type_refl (MonitorType.other n) = ground arith
same_type_refl _ = refl
