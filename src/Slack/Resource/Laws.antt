-- ===== src/Slack/Resource/Laws.antt =====
-- When an integration is what is wanted (internal/controller/slackintegration_controller.go).
use uptime_robot_operator.Prelude.{◌≡◌, refl, Bool, true, false, ◌&&◌, ◌↔◌, some, same_text_iff}
use uptime_robot_operator.Api.Wire.{SlackIntegrationData, IntegrationResponse}
use uptime_robot_operator.Slack.Resource.{
  string_pointer_value, same_bool, slack_integration_matches_desired,
}

-- an integration with the type Slack and the fields that are wanted, where null counts as blank
pub record IsWanted (e : IntegrationResponse) (d : SlackIntegrationData) : Type 0 where
  pub type : string_pointer_value e.type ≡ "Slack"
  pub friendly_name : string_pointer_value e.friendly_name ≡ d.friendly_name
  pub notifications : string_pointer_value e.enable_notifications_for ≡ d.enable_notifications_for
  pub reminder : e.ssl_expiration_reminder ≡ d.ssl_expiration_reminder
  pub url : e.value ≡ d.webhook_url
  pub custom_value : e.custom_value ≡ d.custom_value

both : (a b : Bool) → a && b ≡ true → (a ≡ true) × (b ≡ true)
both true b h = (refl, h)
both false b h = absurd cc

same_bool_iff : (a b : Bool) → (same_bool a b ≡ true) ↔ (a ≡ b)
same_bool_iff true true = (λ h. refl, λ h. refl)
same_bool_iff true false = (λ h. cc, λ h. cc)
same_bool_iff false true = (λ h. cc, λ h. cc)
same_bool_iff false false = (λ h. refl, λ h. refl)

-- slackIntegrationMatchesDesired says yes exactly to an integration that is wanted in every field.
pub matches_iff-IsWanted :
    (e : IntegrationResponse) (d : SlackIntegrationData)
    → (slack_integration_matches_desired (some e) d ≡ true) ↔ IsWanted e d
unfolding slack_integration_matches_desired
matches_iff-IsWanted e d = (
  λ h.
      let (h₁, i) = both _ _ h in
      let (h₂, g) = both _ _ h₁ in
      let (h₃, f) = both _ _ h₂ in
      let (h₄, c) = both _ _ h₃ in
      let (a, b) = both _ _ h₄ in
      record {
        type = (same_text_iff _ _).0 a;
        friendly_name = (same_text_iff _ _).0 b;
        notifications = (same_text_iff _ _).0 c;
        reminder = (same_bool_iff _ _).0 f;
        url = (same_text_iff _ _).0 g;
        custom_value = (same_text_iff _ _).0 i;
      },
  λ w. rw ((same_text_iff _ _).1 w.type) (
      rw ((same_text_iff _ _).1 w.friendly_name) (
        rw ((same_text_iff _ _).1 w.notifications) (
          rw ((same_bool_iff _ _).1 w.reminder)
            (rw ((same_text_iff _ _).1 w.url) ((same_text_iff _ _).1 w.custom_value))))),
)
