-- ===== src/Slack/Main.antt =====
-- internal/controller/slackintegration_controller.go: Reconcile.
pub mod Laws
use uptime_robot_operator.Prelude.{
  ℕ, String, Bool, true, false, ◌&&◌, ◌||◌, not, Option, none, some, List, [], ◌∷◌, if◌then◌else◌,
}
use uptime_robot_operator.Prelude.Int.{ℤ, pos}
use uptime_robot_operator.Text.{concat, is_blank}
use uptime_robot_operator.Strconv.{atoi}
use uptime_robot_operator.Failure.{Failure, Result, ok, err, failure}
use uptime_robot_operator.Conditions.{reason_reconcile_error}
use uptime_robot_operator.Api.Wire.{SlackIntegrationData, IntegrationResponse}
use uptime_robot_operator.Api.Transport.{Transport}
use uptime_robot_operator.Api.Integrations.{list_integrations, delete_integration}
use uptime_robot_operator.Reconcile.Session.{Exit, continues}
use uptime_robot_operator.Controller.Session.{
  onward, on_status, held, call, read_or, value_or, ◌>>=◌, ◌>>◌,
}
use uptime_robot_operator.Controller.Status.{
  Writer, mark_unready, refuse, api_failed, report_success,
}
use uptime_robot_operator.Controller.Steps.{api_of_account, attach_finalizer, requeue}
use uptime_robot_operator.Controller.Deletion.{load_object, delete_object}
use uptime_robot_operator.Slack.Resource.{
  SlackIntegration, SlackIntegrationSpec, SlackIntegrationExtra, SlackCluster, SlackSession,
  SlackAction, slack_integration_finalizer_name, resolve_webhook_url, desired_integration,
  slack_integration_matches_desired, integration_with,
}
use uptime_robot_operator.Slack.Status.{update_slack_integration_status, recreate_slack_integration}

-- the texts of an id that is no number: with %q of fmt, and the error of strconv.Atoi
pub record NumberTexts : Type 0 where
  pub quote : String → String
  pub atoi_error : String → String

abbrev slack_synced : String
slack_synced = "SlackIntegration reconciled successfully"

module _ {W : Type 0} (k : SlackCluster W) (texts : NumberTexts) where
  abbrev put : Writer W SlackIntegrationSpec SlackIntegrationExtra
  put = update_slack_integration_status k

  abbrev pub invalid_id : String → String → Failure
  invalid_id text id = failure (concat (text ∷ texts.quote id ∷ ": " ∷ texts.atoi_error id ∷ [])) []

  abbrev pub delete_numbered : Transport W → String → Option ℤ → W → Option Failure × W
  delete_numbered t id none w = (some (invalid_id "invalid slackintegration status.id " id), w)
  delete_numbered t id (some n) w = delete_integration t n w

  -- what a deletion does: nothing for an integration that is not pruned or has no id; an id that is no
  -- number is an error, so that the finalizer is kept
  unfoldable pub cleanup_slack : Transport W → SlackIntegration → W → Option Failure × W
  cleanup_slack t o w =
      let deletion = delete_numbered t o.status.id (atoi o.status.id) w in
      if not o.spec.prune || is_blank o.status.id then (none, w) else deletion

  unfoldable pub without_webhook : {A : Type 0} → Failure → SlackAction W A
  without_webhook e = do
    mark_unready k
    refuse k put reason_reconcile_error
        (concat ("Failed to resolve webhook URL: " ∷ e.message ∷ [])) e

  unfoldable pub slack_api_failed : {A : Type 0} → String → Failure → SlackAction W A
  slack_api_failed text e =
      api_failed k put (concat (text ∷ e.message ∷ []))
        (concat ("Failed to sync with UptimeRobot: " ∷ e.message ∷ [])) e

  abbrev pub recreated_or :
      String → Option Failure × SlackSession W → Exit (Unit {0}) × SlackSession W
  recreated_or text (none, s) = (continues tt, s)
  recreated_or text (some e, s) = (do mark_unready k; slack_api_failed text e) s

  module _ (t : Transport W) (wanted : SlackIntegrationData) where
    -- recreateSlackIntegration, and the branch of its error
    unfoldable pub recreate_slack : String → ℤ → SlackAction W (Unit {0})
    recreate_slack text delete_id s =
        recreated_or text (recreate_slack_integration k t wanted delete_id s)

    -- The integration is left alone where it is what is wanted.
    unfoldable pub unless_wanted : ℤ → Option IntegrationResponse → SlackAction W (Unit {0})
    unless_wanted id existing s =
        let again = recreate_slack "Failed to recreate integration: " id s in
        if slack_integration_matches_desired existing wanted then (continues tt, s) else again

    unfoldable pub check_slack : SlackIntegration → Option ℤ → SlackAction W (Unit {0})
    unfolding unless_wanted slack_api_failed
    check_slack o none = do
      mark_unready k
      refuse k put reason_reconcile_error (invalid_id "Invalid status.id " o.status.id).message
          (invalid_id "invalid status.id " o.status.id)
    check_slack o (some id) = do
      integrations ←
          read_or (list_integrations t k.codec) (slack_api_failed "Failed to list integrations: ")
      unless_wanted id (integration_with id integrations)

    unfoldable pub sync_slack : SlackIntegration → SlackAction W (Unit {0})
    unfolding check_slack
    sync_slack o =
        if not o.status.ready || is_blank o.status.id
        then recreate_slack "Failed to create integration: " (pos 0)
        else check_slack o (atoi o.status.id)

  -- an integration that is not being deleted
  unfoldable pub reconcile_live_slack : Transport W → SlackAction W (Unit {0})
  unfolding sync_slack without_webhook
  reconcile_live_slack t = do
    attach_finalizer k slack_integration_finalizer_name
    o ← held
    url ← read_or (resolve_webhook_url k o) without_webhook
    sync_slack t (desired_integration o.spec.integration url) o
    report_success k put 0 slack_synced
    o' ← held
    requeue o'.spec.sync_interval

  unfoldable pub slack_with_api : Transport W → SlackAction W (Unit {0})
  slack_with_api t s =
      let gone = delete_object k slack_integration_finalizer_name put (cleanup_slack t) s in
      let live = reconcile_live_slack t s in if s.object.is_deleting then gone else live

  observe : SlackAction W (Unit {0})
  observe s = on_status (λ st. record st { observed_generation = s.object.generation }) s

  -- Reconcile, on a resource that is not read yet
  unfoldable pub reconcile_slack : SlackAction W (Unit {0})
  unfolding observe
  reconcile_slack = do
    load_object k
    observe
    o ← held
    t ← api_of_account k put o.spec.account
    slack_with_api t
