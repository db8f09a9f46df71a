-- ===== src/Slack.antt =====
-- api/v1alpha1/slackintegration_types.go and internal/controller/slackintegration_controller.go: the
-- SlackIntegration resource and its reconciler.
pub mod Resource
pub mod Status
pub mod Main
