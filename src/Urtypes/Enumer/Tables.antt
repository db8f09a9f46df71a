-- ===== src/Urtypes/Enumer/Tables.antt =====
-- The tables of internal/uptimerobot/urtypes/*_enumer.go.
use uptime_robot_operator.Prelude.{[], ◌∷◌}
use uptime_robot_operator.Urtypes.Enumer.{Table}

abbrev pub monitor_type_table : Table
monitor_type_table = record {
  type = "MonitorType";
  names = "HTTPSKeywordPingPortHeartbeatDNS";
  lower_names = "httpskeywordpingportheartbeatdns";
  index = 0 ∷ 5 ∷ 12 ∷ 16 ∷ 20 ∷ 29 ∷ 32 ∷ [];
  first = 1;
  values = 1 ∷ 2 ∷ 3 ∷ 4 ∷ 5 ∷ 6 ∷ [];
}

abbrev pub http_method_table : Table
http_method_table = record {
  type = "HTTPMethod";
  names = "HEADGETPOSTPUTPATCHDELETEOPTIONS";
  lower_names = "headgetpostputpatchdeleteoptions";
  index = 0 ∷ 4 ∷ 7 ∷ 11 ∷ 14 ∷ 19 ∷ 25 ∷ 32 ∷ [];
  first = 1;
  values = 1 ∷ 2 ∷ 3 ∷ 4 ∷ 5 ∷ 6 ∷ 7 ∷ [];
}

abbrev pub keyword_type_table : Table
keyword_type_table = record {
  type = "KeywordType";
  names = "ExistsNotExists";
  lower_names = "existsnotexists";
  index = 0 ∷ 6 ∷ 15 ∷ [];
  first = 1;
  values = 1 ∷ 2 ∷ [];
}

abbrev pub monitor_auth_type_table : Table
monitor_auth_type_table = record {
  type = "MonitorAuthType";
  names = "BasicDigest";
  lower_names = "basicdigest";
  index = 0 ∷ 5 ∷ 11 ∷ [];
  first = 1;
  values = 1 ∷ 2 ∷ [];
}

abbrev pub port_type_table : Table
port_type_table = record {
  type = "PortType";
  names = "HTTPFTPSMTPPOP3IMAPCustom";
  lower_names = "httpftpsmtppop3imapcustom";
  index = 0 ∷ 4 ∷ 7 ∷ 11 ∷ 15 ∷ 19 ∷ 25 ∷ [];
  first = 1;
  values = 1 ∷ 2 ∷ 3 ∷ 4 ∷ 5 ∷ 6 ∷ [];
}

abbrev pub post_content_type_table : Table
post_content_type_table = record {
  type = "POSTContentType";
  names = "text/htmlapplication/json";
  lower_names = "text/htmlapplication/json";
  index = 0 ∷ 9 ∷ 25 ∷ [];
  first = 0;
  values = 0 ∷ 1 ∷ [];
}

abbrev pub post_type_table : Table
post_type_table = record {
  type = "POSTType";
  names = "KeyValueRawData";
  lower_names = "keyvaluerawdata";
  index = 0 ∷ 8 ∷ 15 ∷ [];
  first = 1;
  values = 1 ∷ 2 ∷ [];
}

-- the enumerations, by their names
pub data Enumeration : Type 0 where
  monitor_type http_method keyword_type monitor_auth_type port_type : Enumeration
  post_content_type post_type : Enumeration

unfoldable pub table : Enumeration → Table
table monitor_type = monitor_type_table
table http_method = http_method_table
table keyword_type = keyword_type_table
table monitor_auth_type = monitor_auth_type_table
table port_type = port_type_table
table post_content_type = post_content_type_table
table post_type = post_type_table
