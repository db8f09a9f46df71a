-- ===== src/Slack/Status.antt =====
-- internal/controller/slackintegration_controller.go: updateSlackIntegrationStatus and
-- recreateSlackIntegration.
pub mod Laws
use uptime_robot_operator.Prelude.{ℕ, String, Bool, true, Option, none, some, if◌then◌else◌}
use uptime_robot_operator.Prelude.Int.{ℤ, pos, ltb_ℤ}
use uptime_robot_operator.Strconv.{itoa}
use uptime_robot_operator.Failure.{Failure, Result, ok, err, is, api_conflict}
use uptime_robot_operator.Api.Wire.{SlackIntegrationData, IntegrationResponse}
use uptime_robot_operator.Api.Transport.{Transport}
use uptime_robot_operator.Api.Integrations.{create_slack_integration, delete_integration}
use uptime_robot_operator.Slack.Resource.{SlackIntegration, SlackCluster, SlackSession}

-- the latest version of the resource, with the status of the one at hand
unfoldable pub reapply_slack : SlackIntegration → SlackIntegration → SlackIntegration
reapply_slack resource latest = record latest {
  status = record latest.status {
    ready = resource.status.ready;
    id = resource.status.id;
    extra = record { type = resource.status.extra.type };
    observed_generation = resource.status.observed_generation;
    conditions = resource.status.conditions;
  };
}

-- the status of an integration that was created
unfoldable pub with_created : SlackIntegration → IntegrationResponse → SlackIntegration
with_created o r = record o {
  status = record o.status { ready = true; id = itoa r.id; extra = record { type = "Slack" } };
}

module _ {W : Type 0} (k : SlackCluster W) where
  -- the second write, which leaves the resource at hand as it is
  abbrev pub second_write :
      SlackSession W → Result SlackIntegration × W → Option Failure × SlackSession W
  second_write s (ok stored, w) = (none, record s { world = w })
  second_write s (err e, w) = (some e, record s { world = w })

  abbrev pub on_latest_slack :
      SlackSession W → Result SlackIntegration × W → Option Failure × SlackSession W
  on_latest_slack s (err e, w) = (some e, record s { world = w })
  on_latest_slack s (ok latest, w) =
      second_write s (k.update_status (reapply_slack s.object latest) w)

  abbrev pub first_write :
      SlackSession W → Result SlackIntegration × W → Option Failure × SlackSession W
  first_write s (ok stored, w) = (none, record { object = stored; world = w })
  first_write s (err e, w) =
      let again = on_latest_slack s (k.get w) in
      if is e api_conflict then again else (some e, record s { world = w })

  -- updateSlackIntegrationStatus
  unfoldable pub update_slack_integration_status : SlackSession W → Option Failure × SlackSession W
  update_slack_integration_status s = first_write s (k.update_status s.object s.world)

  module _ (t : Transport W) (wanted : SlackIntegrationData) where
    abbrev pub created_slack :
        SlackSession W → Result IntegrationResponse × W → Option Failure × SlackSession W
    created_slack s (err e, w) = (some e, record s { world = w })
    created_slack s (ok r, w) =
        update_slack_integration_status (record { object = with_created s.object r; world = w })

    abbrev pub deleted_slack : SlackSession W → Option Failure × W → Option Failure × SlackSession W
    deleted_slack s (some e, w) = (some e, record s { world = w })
    deleted_slack s (none, w) = created_slack s (create_slack_integration t k.codec wanted w)

    -- recreateSlackIntegration, with the id of the integration to delete first, or 0
    unfoldable pub recreate_slack_integration : ℤ → SlackSession W → Option Failure × SlackSession W
    unfolding update_slack_integration_status
    recreate_slack_integration delete_id s =
        let deletion = delete_integration t delete_id s.world in
        deleted_slack s (if ltb_ℤ (pos 0) delete_id then deletion else (none, s.world))
