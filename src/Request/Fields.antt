-- ===== src/Request/Fields.antt =====
-- internal/uptimerobot/client.go: the parts of a monitor request, each computed from one part of the
-- resource. Seconds() is the division by 10 ^ 9 that drops the remainder.
use uptime_robot_operator.Prelude.{
  ℕ, suc, ◌+◌, ◌-◌, ◌/◌, ◌%◌, ◌^◌, String, Bool, true, Option, none, some, List, [], ◌∷◌, ltb,
  if◌then◌else◌,
}
use uptime_robot_operator.Prelude.Int.{ℤ, pos, negsuc, sub_ℕ, ltb_ℤ}
use uptime_robot_operator.Text.{is_blank}
use uptime_robot_operator.Urtypes.{
  HttpMethod, method_head, method_get, MonitorType, type_keyword, type_port, type_heartbeat,
  type_dns, same_type, auth_type_to_string, post_type_to_string, keyword_type_to_string,
}
use uptime_robot_operator.Monitor.{
  MonitorPost, MonitorKeyword, MonitorPort, MonitorAuth, MonitorDns, MonitorContact,
}
use uptime_robot_operator.Request.Payload.{MonitorConfig, AssignedAlertContactRequest}

-- int(d.Seconds())
unfoldable pub seconds : ℤ → ℤ
seconds (pos n) = pos (n / 1_000_000_000)
seconds (negsuc n) = sub_ℕ 0 (suc n / 1_000_000_000)

abbrev pub minute : ℕ
minute = 60_000_000_000

-- The minutes of a magnitude rounded to the nearest minute, half a minute up. Where the sum passes
-- the largest duration, Round returns that, and its minutes are counted in full.
abbrev pub rounded_minutes : ℕ → ℕ → ℕ
rounded_minutes largest n =
    let r = n % minute in
    if ltb (r + r) minute
    then n / minute
    else if ltb largest (n + (minute - r))
    then largest / minute
    else n / minute + 1

-- int(d.Round(time.Minute).Minutes())
unfoldable pub minutes : ℤ → ℤ
minutes (pos n) = pos (rounded_minutes (2 ^ 63 - 1) n)
minutes (negsuc n) = sub_ℕ 0 (rounded_minutes (2 ^ 63) (suc n))

abbrev pub clamp_grace : ℤ → ℤ
clamp_grace g =
    let capped = if ltb_ℤ (pos 86400) g then pos 86400 else g in
    if ltb_ℤ capped (pos 0) then pos 0 else capped

-- the grace period: 60 seconds by default, within 0 to 86400
unfoldable pub grace_period_seconds : Option ℤ → ℤ
unfolding seconds
grace_period_seconds none = clamp_grace (pos 60)
grace_period_seconds (some d) = clamp_grace (seconds d)

-- the auth fields: type, user name and password
unfoldable pub auth_fields : Option MonitorAuth → String × String × String
auth_fields none = ("", "", "")
auth_fields (some auth) = (auth_type_to_string auth.type, auth.username, auth.password)

abbrev pub post_values : Option MonitorPost → String × String
post_values none = ("", "")
post_values (some post) = (post_type_to_string post.type, post.value)

-- the POST fields: no data for HEAD and GET
unfoldable pub post_fields : HttpMethod → Option MonitorPost → String × String
post_fields method_head post = ("", "")
post_fields method_get post = ("", "")
post_fields _ post = post_values post

abbrev pub case_type : Option Bool → ℤ
case_type (some true) = pos 1
case_type _ = pos 0

abbrev pub keyword_values : Option MonitorKeyword → String × Option ℤ × String
keyword_values none = ("", none, "")
keyword_values (some k) =
    (keyword_type_to_string k.type, some (case_type k.case_sensitive), k.value)

-- the keyword fields: type, case type and value
unfoldable pub keyword_fields : MonitorType → Option MonitorKeyword → String × Option ℤ × String
keyword_fields type keyword =
    if same_type type type_keyword then keyword_values keyword else ("", none, "")

abbrev pub port_number : Option MonitorPort → ℕ
port_number none = 0
port_number (some p) = p.number

unfoldable pub port_field : MonitorType → Option MonitorPort → ℕ
port_field type port = if same_type type type_port then port_number port else 0

unfoldable pub dns_config : MonitorDns → MonitorConfig
dns_config d = record {
  dns_records = some (record {
    a = d.a;
    aaaa = d.aaaa;
    cname = d.cname;
    mx = d.mx;
    ns = d.ns;
    txt = d.txt;
    srv = d.srv;
    ptr = d.ptr;
    soa = d.soa;
    spf = d.spf;
    dnskey = [];
    ds = [];
    nsec = [];
    nsec3 = [];
  });
  ssl_expiration_period_days = d.ssl_expiration_period_days;
}

abbrev pub dns_part : Option MonitorDns → Option MonitorConfig
dns_part none = none
dns_part (some d) = some (dns_config d)

-- the config object of DNS and heartbeat monitors
unfoldable pub config_field : MonitorType → Option MonitorDns → Option MonitorConfig
unfolding dns_config
config_field type dns =
    if same_type type type_heartbeat
    then some (record { dns_records = none; ssl_expiration_period_days = [] })
    else if same_type type type_dns
    then dns_part dns
    else none

abbrev pub at_least_zero : ℤ → ℤ
at_least_zero n = if ltb_ℤ n (pos 0) then pos 0 else n

abbrev pub contact_to_v3 : MonitorContact → AssignedAlertContactRequest
contact_to_v3 c = record {
  alert_contact_id = c.id;
  threshold = at_least_zero (seconds c.threshold);
  recurrence = minutes c.recurrence;
}

-- contactsToV3Format: a contact with no id is skipped.
unfoldable pub contacts_to_v3_format : List MonitorContact → List AssignedAlertContactRequest
contacts_to_v3_format [] = []
contacts_to_v3_format (c ∷ cs) =
    let rest = contacts_to_v3_format cs in if is_blank c.id then rest else contact_to_v3 c ∷ rest
