-- ===== src/Api/Integrations.antt =====
-- internal/uptimerobot/client.go: CreateSlackIntegration, ListIntegrations and DeleteIntegration.
use uptime_robot_operator.Prelude.{Option, List, [], ◌∷◌}
use uptime_robot_operator.Prelude.Int.{ℤ}
use uptime_robot_operator.Text.{concat}
use uptime_robot_operator.Strconv.{itoa}
use uptime_robot_operator.Failure.{Failure, Result, ok}
use uptime_robot_operator.Api.Wire.{SlackIntegrationData, IntegrationResponse}
use uptime_robot_operator.Api.Transport.{Transport, no_body, create_slack_body, then_do, do_json}
use uptime_robot_operator.Api.Codec.{Codec, delete_at}

module _ {W : Type 0} (t : Transport W) (codec : Codec) where
  -- CreateSlackIntegration
  unfoldable pub create_slack_integration :
      SlackIntegrationData → W → Result IntegrationResponse × W
  create_slack_integration payload =
      do_json t "POST" "integrations"
        (create_slack_body (record { type = "Slack"; payload = payload })) codec.integration

  -- ListIntegrations: the first page
  unfoldable pub list_integrations : W → Result (List IntegrationResponse) × W
  list_integrations w =
      then_do (do_json t "GET" "integrations" no_body codec.integrations w)
        (λ page v. (ok page.integrations, v))

-- DeleteIntegration
unfoldable pub delete_integration : {W : Type 0} → Transport W → ℤ → W → Option Failure × W
delete_integration t id = delete_at t (concat ("integrations/" ∷ itoa id ∷ []))
