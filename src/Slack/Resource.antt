-- ===== src/Slack/Resource.antt =====
-- api/v1alpha1/slackintegration_types.go: the SlackIntegration resource; and the functions of
-- internal/controller/slackintegration_controller.go on what is wanted of an integration.
pub mod Laws
use uptime_robot_operator.Prelude.{
  ℕ, String, Bool, true, false, ◌&&◌, ◌||◌, not, Option, none, some, List, [], ◌∷◌, same_text,
  if◌then◌else◌,
}
use uptime_robot_operator.Prelude.Int.{ℤ, ltb_ℤ}
use uptime_robot_operator.Text.{concat, is_blank}
use uptime_robot_operator.Failure.{Result, ok, err, failure, err_secret_missing_key}
use uptime_robot_operator.Finalizer.Annotations.{lookup}
use uptime_robot_operator.Api.Wire.{SlackIntegrationData, IntegrationResponse}
use uptime_robot_operator.Controller.Session.{Object, Cluster, Session, Action}

pub record SlackIntegrationValues : Type 0 where
  pub friendly_name : String
  pub enable_notifications_for : String
  pub ssl_expiration_reminder : Bool
  pub webhook_url : String
  pub secret_name : String
  pub webhook_url_key : String
  pub custom_value : String

pub record SlackIntegrationSpec : Type 0 where
  pub sync_interval : Option ℤ
  pub prune : Bool
  pub account : String
  pub integration : SlackIntegrationValues

-- SlackIntegrationStatus, less the fields that every status has
pub record SlackIntegrationExtra : Type 0 where
  pub type : String

abbrev pub SlackIntegration : Type 0
SlackIntegration = Object SlackIntegrationSpec SlackIntegrationExtra

abbrev pub SlackCluster : Type 0 → Type 0
SlackCluster W = Cluster W SlackIntegrationSpec SlackIntegrationExtra

abbrev pub SlackSession : Type 0 → Type 0
SlackSession W = Session W SlackIntegrationSpec SlackIntegrationExtra

abbrev pub SlackAction : Type 0 → Type 0 → Type 0
SlackAction W A = Action W SlackIntegrationSpec SlackIntegrationExtra A

abbrev pub slack_integration_finalizer_name : String
slack_integration_finalizer_name = "uptimerobot.com/slackintegration-finalizer"

-- the URL under the key in the data of the secret
abbrev pub url_under : String → Option String → Result String
url_under key none =
    err (failure (concat ("secret missing key: " ∷ key ∷ [])) (err_secret_missing_key ∷ []))
url_under key (some value) = ok value

abbrev pub url_of_secret :
    {W : Type 0} → String → Result (List (String × String)) × W → Result String × W
url_of_secret key (err e, w) = (err e, w)
url_of_secret key (ok entries, w) = (url_under key (lookup key entries), w)

unfoldable pub webhook_key : SlackIntegrationValues → String
webhook_key v = if is_blank v.webhook_url_key then "webhookURL" else v.webhook_url_key

-- resolveWebhookURL
unfoldable pub resolve_webhook_url :
    {W : Type 0} → SlackCluster W → SlackIntegration → W → Result String × W
resolve_webhook_url k o w =
    let v = o.spec.integration in
    let read = url_of_secret (webhook_key v) (k.get_secret o.namespace v.secret_name w) in
    if not (is_blank v.webhook_url) then (ok v.webhook_url, w) else read

-- normalizeSlackIntegrationData
unfoldable pub normalize_slack_integration_data : SlackIntegrationData → SlackIntegrationData
normalize_slack_integration_data d = record d {
  enable_notifications_for =
      if is_blank d.enable_notifications_for then "UpAndDown" else d.enable_notifications_for;
}

-- what is asked of the API, for the URL that was resolved
unfoldable pub desired_integration : SlackIntegrationValues → String → SlackIntegrationData
unfolding normalize_slack_integration_data
desired_integration v url = normalize_slack_integration_data (record {
  friendly_name = v.friendly_name;
  enable_notifications_for = v.enable_notifications_for;
  ssl_expiration_reminder = v.ssl_expiration_reminder;
  webhook_url = url;
  custom_value = v.custom_value;
})

-- stringPointerValue
unfoldable pub string_pointer_value : Option String → String
string_pointer_value none = ""
string_pointer_value (some s) = s

abbrev pub same_bool : Bool → Bool → Bool
same_bool true b = b
same_bool false b = not b

-- slackIntegrationMatchesDesired
unfoldable pub slack_integration_matches_desired :
    Option IntegrationResponse → SlackIntegrationData → Bool
slack_integration_matches_desired none d = false
slack_integration_matches_desired (some e) d =
    same_text (string_pointer_value e.type) "Slack"
    && same_text (string_pointer_value e.friendly_name) d.friendly_name
    && same_text (string_pointer_value e.enable_notifications_for) d.enable_notifications_for
    && same_bool e.ssl_expiration_reminder d.ssl_expiration_reminder
    && same_text e.value d.webhook_url
    && same_text e.custom_value d.custom_value

abbrev pub same_ℤ : ℤ → ℤ → Bool
same_ℤ a b = not (ltb_ℤ a b) && not (ltb_ℤ b a)

-- the first integration with an id
unfoldable pub integration_with : ℤ → List IntegrationResponse → Option IntegrationResponse
integration_with id [] = none
integration_with id (i ∷ more) =
    let rest = integration_with id more in if same_ℤ i.id id then some i else rest
