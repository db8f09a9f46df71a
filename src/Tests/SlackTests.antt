-- ===== src/Tests/SlackTests.antt =====
-- Tests of the model of internal/controller/slackintegration_controller.go.
use Prim.Native.Nat.{ℕ, suc}
use uptime_robot_operator.Prelude.{
  ◌≡◌, refl, ◌||◌, true, false, Option, none, some, [], ◌∷◌, same_text, if◌then◌else◌,
}
use uptime_robot_operator.Prelude.Int.{pos}
use uptime_robot_operator.Strconv.{atoi, itoa}
use uptime_robot_operator.Failure.{Failure, Result, ok, err, failure, is}
use uptime_robot_operator.Conditions.{condition_true, condition_false, set_condition}
use uptime_robot_operator.Finalizer.Cleanup.{handle_finalizer_cleanup, Handled, is_skipped, skipped}
use uptime_robot_operator.Finalizer.Cleanup.Outcome.{returned}
use uptime_robot_operator.Finalizer.Annotations.{lookup, insert}
use uptime_robot_operator.Finalizer.Tracking.{initialize_cleanup_tracking, try_track, write}
use uptime_robot_operator.Api.Transport.{do_json, exchange, new_request, checked, then_do}
use uptime_robot_operator.Api.Wire.{SlackIntegrationData}
use uptime_robot_operator.Api.Codec.{delete_at}
use uptime_robot_operator.Api.Integrations.{
  create_slack_integration, delete_integration, list_integrations,
}
use uptime_robot_operator.Reconcile.Session.{continues, exits, failed, requeue_after}
use uptime_robot_operator.Reconcile.Main.ReportLaws.{Reads}
use uptime_robot_operator.Controller.Session.{onward, exit}
use uptime_robot_operator.Controller.Status.{try_write}
use uptime_robot_operator.Controller.Status.Laws.{with_conditions}
use uptime_robot_operator.Tests.FinalizerTests.{times}
use uptime_robot_operator.Controller.Deletion.{
  delete_object, track_object, load_object, cleanup_options,
}
use uptime_robot_operator.Controller.Deletion.Laws.{delete_object_end}
use uptime_robot_operator.Slack.Resource.{
  SlackIntegration, SlackIntegrationSpec, SlackCluster, SlackSession, integration_with,
  slack_integration_finalizer_name, string_pointer_value,
}
use uptime_robot_operator.Slack.Status.{recreate_slack_integration, update_slack_integration_status}
use uptime_robot_operator.Slack.Status.Laws.{Recreation, recreate_slack-Recreation}
use uptime_robot_operator.Slack.Main.{NumberTexts, sync_slack, cleanup_slack}
use uptime_robot_operator.Slack.Main.Laws.{sync_slack_settled, sync_slack_unrecorded}
use uptime_robot_operator.Tests.ControllerTests.{resource, holding, writes, counting, slack_seven}

abbrev ops : SlackIntegrationSpec
ops = record {
  sync_interval = some (pos 60);
  prune = true;
  account = "";
  integration = record {
    friendly_name = "ops";
    enable_notifications_for = "";
    ssl_expiration_reminder = false;
    webhook_url = "https://hooks";
    secret_name = "";
    webhook_url_key = "";
    custom_value = "";
  };
}

abbrev wanted : SlackIntegrationData
wanted = record {
  friendly_name = "ops";
  enable_notifications_for = "UpAndDown";
  ssl_expiration_reminder = false;
  webhook_url = "https://hooks";
  custom_value = "";
}

abbrev texts : NumberTexts
texts = record { quote = λ s. s; atoi_error = λ s. "invalid syntax" }

abbrev settled : SlackSession ℕ
settled = record { object = resource false [] ops true "7" (record { type = "Slack" }); world = 0 }

abbrev slacks : SlackCluster ℕ
slacks = holding settled.object writes (ok "")

abbrev replaced : SlackSession ℕ
replaced = (recreate_slack_integration slacks (counting (ok "")) wanted (pos 7) settled).1

recreate_slack-Recreation_example :
    Recreation slacks (counting (ok "")) wanted (pos 7) settled replaced
unfolding recreate_slack_integration delete_integration delete_at create_slack_integration do_json
    exchange new_request checked then_do
recreate_slack-Recreation_example =
    recreate_slack-Recreation slacks (counting (ok "")) wanted (pos 7) settled replaced refl

sync_slack_settled_example :
    sync_slack slacks texts (counting (ok "")) wanted settled.object settled
    ≡ (continues tt, record settled { world = 1 })
unfolding list_integrations do_json exchange new_request checked then_do integration_with
    string_pointer_value atoi same_text
sync_slack_settled_example =
    sync_slack_settled slacks texts (counting (ok "")) wanted settled {n = pos 7}
      {all = slack_seven ∷ []} {e = slack_seven} refl refl refl refl refl
      (record {
        type = refl;
        friendly_name = refl;
        notifications = refl;
        reminder = refl;
        url = refl;
        custom_value = refl;
      })

abbrev fresh : SlackSession ℕ
fresh = record { object = resource false [] ops false "" (record { type = "" }); world = 0 }

abbrev unavailable : Failure
unavailable = failure "unavailable" []

abbrev refuses : SlackIntegration → ℕ → Result SlackIntegration × ℕ
refuses x n = (err unavailable, n)

sync_slack_unrecorded_example :
    (m : SlackIntegration) × (sync_slack
        (holding fresh.object refuses (ok ""))
        texts
        (counting (ok ""))
        wanted
        fresh.object
        fresh
      ≡ onward
          (try_write
            (holding fresh.object refuses (ok ""))
            (update_slack_integration_status (holding fresh.object refuses (ok "")))
            (record { object = m; world = 1 }))
          (λ x. exit (failed unavailable)))
    × Reads condition_false condition_false condition_true m.status.conditions
    × (m.status.ready ≡ false)
    × (m.status.id ≡ itoa (pos 7))
unfolding create_slack_integration do_json exchange new_request checked then_do is
sync_slack_unrecorded_example =
    sync_slack_unrecorded (holding fresh.object refuses (ok "")) texts (counting (ok "")) wanted
      fresh {r = slack_seven} refl refl refl refl

abbrev going : SlackSession ℕ
going = record {
  object =
      resource true (slack_integration_finalizer_name ∷ []) ops true "7"
        (record { type = "Slack" });
  world = 0;
}

abbrev leaving : SlackCluster ℕ
leaving = holding going.object writes (ok "")

abbrev leaving_writer : SlackSession ℕ → Option Failure × SlackSession ℕ
leaving_writer = update_slack_integration_status leaving

is_contained : leaving.contains_finalizer going.object slack_integration_finalizer_name ≡ true
unfolding same_text
is_contained = refl

is_tracked : track_object leaving going ≡ (continues tt, (track_object leaving going).1)
unfolding track_object initialize_cleanup_tracking try_track write lookup insert same_text
is_tracked = refl

is_loaded :
    load_object leaving (track_object leaving going).1
    ≡ (continues tt, record { object = going.object; world = (track_object leaving going).1.world })
unfolding load_object
is_loaded = refl

abbrev skipped_slack : Handled
skipped_slack = record {
  result = record {
    success = true;
    force_remove = true;
    requeue_after = pos 0;
    message = "Cleanup skipped due to skip-cleanup annotation";
  };
  error = none;
  conditions =
      record {
        type = "Deleting";
        status = condition_true;
        observed_generation = pos 2;
        last_transition_time = pos 0;
        reason = "CleanupSkipped";
        message = "Cleanup skipped due to skip-cleanup annotation";
      }
      ∷ [];
  events =
      record {
        kind = "Warning";
        reason = "CleanupSkipped";
        message = "Cleanup skipped due to skip-cleanup annotation";
      }
      ∷ [];
}

is_handled :
    (w : ℕ)
    → handle_finalizer_cleanup times
        (λ n. pos n)
        (cleanup_options leaving going.object)
        (cleanup_slack leaving texts (counting (ok "")) going.object)
        w
      ≡ (returned skipped_slack, w)
unfolding handle_finalizer_cleanup is_skipped skipped set_condition lookup same_text
is_handled w = refl

abbrev after_cleanup : SlackIntegration
after_cleanup = with_conditions leaving going.object skipped_slack.conditions

is_saved :
    (w : ℕ)
    → try_write leaving leaving_writer (record { object = after_cleanup; world = w })
      ≡ (continues tt, record { object = after_cleanup; world = suc w })
unfolding try_write update_slack_integration_status
is_saved w = refl

delete_object_end_example :
    let w = (track_object leaving going).1.world in
    delete_object leaving slack_integration_finalizer_name leaving_writer
      (cleanup_slack leaving texts (counting (ok "")))
      going
    ≡ (if skipped_slack.result.success || skipped_slack.result.force_remove
        then (
          exits (requeue_after (pos 0)),
          record {
            object = leaving.remove_finalizer after_cleanup slack_integration_finalizer_name;
            world = suc (suc w);
          },
        )
        else (exits (requeue_after (pos 0)), record { object = after_cleanup; world = suc w }))
delete_object_end_example =
    delete_object_end leaving slack_integration_finalizer_name leaving_writer
      (cleanup_slack leaving texts (counting (ok ""))) going (track_object leaving going).1
      (record { object = going.object; world = (track_object leaving going).1.world })
      (record { object = after_cleanup; world = suc (track_object leaving going).1.world })
      is_contained is_tracked is_loaded (is_handled _) (is_saved _) refl
