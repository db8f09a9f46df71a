-- ===== src/Tests/EnumerTests.antt =====
-- Tests of the model of internal/uptimerobot/urtypes/*_enumer.go.
use uptime_robot_operator.Prelude.{◌≡◌, refl, some, none, [], ◌↔◌, same_text}
use uptime_robot_operator.Text.{concat}
use uptime_robot_operator.Strconv.{itoa}
use uptime_robot_operator.Text.Case.{to_lower}
use uptime_robot_operator.Failure.{ok, err, failure}
use uptime_robot_operator.Urtypes.Enumer.{to_string, from_string, unmarshal_text, unmarshal_json}
use uptime_robot_operator.Urtypes.Enumer.Tables.{
  Enumeration, table, monitor_type_table, http_method_table, post_content_type_table,
}
use uptime_robot_operator.Urtypes.Enumer.Laws.{Names, from_string-Names}

-- String subtracts 1 from an unsigned 0, and adds it again in the message
no_name :
    (to_string monitor_type_table 0 ≡ "MonitorType(0)")
    × (to_string monitor_type_table 7 ≡ "MonitorType(7)")
    × (to_string monitor_type_table 255 ≡ "MonitorType(255)")
    × (to_string post_content_type_table 1 ≡ "application/json")
unfolding to_string concat itoa
no_name = (refl, refl, refl, refl)

-- the Kelvin sign is read as a k
kelvin : to_lower "KEYWORD" ≡ "keyword"
unfolding to_lower
kelvin = refl

-- a text that is no name resets the value, and a value that is no string leaves it
rejected :
    (unmarshal_text http_method_table "trace"
      ≡ (0, some (failure "trace does not belong to HTTPMethod values" [])))
    × (unmarshal_json http_method_table (λ s. err (failure "no string" [])) 3 "7"
        ≡ (3, some (failure "HTTPMethod should be a string, got 7" [])))
    × (unmarshal_json http_method_table (λ s. ok "pAtCh") 3 "pAtCh" ≡ (5, none))
unfolding unmarshal_text unmarshal_json from_string to_lower same_text concat
rejected = (refl, refl, refl)

from_string-Names_example :
    (from_string (table Enumeration.monitor_type) "hEARTBEAT" ≡ ok 5)
    ↔ Names (table Enumeration.monitor_type) "hEARTBEAT" 5
from_string-Names_example = from_string-Names Enumeration.monitor_type "hEARTBEAT" 5
