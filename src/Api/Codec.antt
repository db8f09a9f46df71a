-- ===== src/Api/Codec.antt =====
-- encoding/json on the responses of internal/uptimerobot/v3types.go, a parameter of the calls, and
-- what the calls of internal/uptimerobot/client.go that delete have in common.
use uptime_robot_operator.Prelude.{String, Option, none, some, List, if◌then◌else◌}
use uptime_robot_operator.Failure.{Failure, Result, ok, err, is_not_found}
use uptime_robot_operator.Api.Wire.{
  AlertContactResponse, UserMeResponse, IntegrationResponse, IntegrationsListResponse,
  MaintenanceWindowResponse, MaintenanceWindowsListResponse, GroupWireFormat, GroupListWireFormat,
}
use uptime_robot_operator.Api.Transport.{Transport, no_body, do_json}

pub record Codec : Type 0 where
  pub contacts : String → Result (List AlertContactResponse)
  pub user : String → Result UserMeResponse
  pub integration : String → Result IntegrationResponse
  pub integrations : String → Result IntegrationsListResponse
  pub window : String → Result MaintenanceWindowResponse
  pub windows : String → Result MaintenanceWindowsListResponse
  pub group : String → Result GroupWireFormat
  pub groups : String → Result GroupListWireFormat

-- An object that is not there counts as deleted.
abbrev pub unless_missing : {W : Type 0} → Result (Unit {0}) × W → Option Failure × W
unless_missing (ok u, w) = (none, w)
unless_missing (err e, w) = (if is_not_found (some e) then none else some e, w)

unfoldable pub delete_at : {W : Type 0} → Transport W → String → W → Option Failure × W
delete_at t endpoint w = unless_missing (do_json t "DELETE" endpoint no_body (λ body. ok tt) w)
