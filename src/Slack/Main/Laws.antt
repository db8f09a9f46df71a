-- ===== src/Slack/Main/Laws.antt =====
-- What a synchronisation of a Slack integration sends
-- (internal/controller/slackintegration_controller.go).
use uptime_robot_operator.Prelude.{
  ◌≡◌, refl, ◌∙◌, ap, Bool, true, false, ◌||◌, not, none, some, List, [], ◌∷◌, if◌then◌else◌,
  when_true, when_false,
}
use uptime_robot_operator.Prelude.Int.{ℤ, pos}
use uptime_robot_operator.Text.{is_blank, concat}
use uptime_robot_operator.Strconv.{atoi, itoa}
use uptime_robot_operator.Failure.{Failure, ok, err, is, api_conflict}
use uptime_robot_operator.Conditions.{condition_true, condition_false}
use uptime_robot_operator.Api.Wire.{SlackIntegrationData, IntegrationResponse}
use uptime_robot_operator.Api.Transport.{Transport}
use uptime_robot_operator.Api.Integrations.{create_slack_integration, list_integrations}
use uptime_robot_operator.Reconcile.Session.{continues, failed}
use uptime_robot_operator.Reconcile.Main.ReportLaws.{Reads}
use uptime_robot_operator.Controller.Session.{onward, on_status, call, exit, value_or}
use uptime_robot_operator.Controller.Status.{try_write, mark_unready}
use uptime_robot_operator.Controller.Status.Laws.{api_failed-Reads, with_conditions}
use uptime_robot_operator.Slack.Resource.{
  SlackIntegration, SlackCluster, SlackSession, integration_with,
}
use uptime_robot_operator.Slack.Resource.Laws.{IsWanted, matches_iff-IsWanted}
use uptime_robot_operator.Slack.Status.{
  with_created, first_write, created_slack, recreate_slack_integration,
  update_slack_integration_status,
}
use uptime_robot_operator.Slack.Main.{
  NumberTexts, recreated_or, recreate_slack, slack_api_failed, unless_wanted, check_slack,
  sync_slack,
}

module _ {W : Type 0} (k : SlackCluster W) (texts : NumberTexts) (t : Transport W)
    (wanted : SlackIntegrationData) where
  -- the branch for an integration that is not ready or has no id
  by_creation :
      (o : SlackIntegration) (s : SlackSession W)
      → o.status.ready ≡ false
      → sync_slack k texts t wanted o s
        ≡ recreate_slack k texts t wanted "Failed to create integration: " (pos 0) s
  unfolding sync_slack
  by_creation o s n =
      ap
        (λ (b : Bool).
          (if not b || is_blank o.status.id
              then recreate_slack k texts t wanted "Failed to create integration: " (pos 0)
              else check_slack k texts t wanted o (atoi o.status.id))
            s)
        n

  by_check :
      (o : SlackIntegration) (s : SlackSession W) {n : ℤ}
      → o.status.ready ≡ true
      → is_blank o.status.id ≡ false
      → atoi o.status.id ≡ some n
      → sync_slack k texts t wanted o s ≡ check_slack k texts t wanted o (some n) s
  unfolding sync_slack
  by_check o s y b e =
      ap
        (λ (c : Bool).
          (if not c || is_blank o.status.id
              then recreate_slack k texts t wanted "Failed to create integration: " (pos 0)
              else check_slack k texts t wanted o (atoi o.status.id))
            s)
        y
      ∙ ap
          (λ (c : Bool).
            (if c
                then recreate_slack k texts t wanted "Failed to create integration: " (pos 0)
                else check_slack k texts t wanted o (atoi o.status.id))
              s)
          b
      ∙ ap (λ x. check_slack k texts t wanted o x s) e

  -- A ready integration that the listing shows as it is wanted is left alone: the listing is the only
  -- request, and the synchronisation goes on with the resource as it was.
  pub sync_slack_settled :
      (s : SlackSession W) {n : ℤ} {all : List IntegrationResponse} {e : IntegrationResponse}
      {v : W}
      → s.object.status.ready ≡ true
      → is_blank s.object.status.id ≡ false
      → atoi s.object.status.id ≡ some n
      → list_integrations t k.codec s.world ≡ (ok all, v)
      → integration_with n all ≡ some e
      → IsWanted e wanted
      → sync_slack k texts t wanted s.object s ≡ (continues tt, record s { world = v })
  unfolding check_slack unless_wanted call onward value_or
  sync_slack_settled s {n} {all} {e} {v} y b a l i w =
      by_check s.object s y b a
      ∙ rw l (rw i (when_true _ _ _ ((matches_iff-IsWanted e wanted).1 w)))

  after_no_deletion :
      (s : SlackSession W)
      → recreate_slack_integration k t wanted (pos 0) s
        ≡ created_slack k t wanted s (create_slack_integration t k.codec wanted s.world)
  unfolding recreate_slack_integration
  after_no_deletion s = refl

  write_refused :
      (x : SlackIntegration) {v u : W} {e : Failure}
      → k.update_status x v ≡ (err e, u)
      → is e api_conflict ≡ false
      → update_slack_integration_status k (record { object = x; world = v })
        ≡ (some e, record { object = x; world = u })
  unfolding update_slack_integration_status
  write_refused x {v} q f =
      ap (first_write k (record { object = x; world = v })) q ∙ when_false _ _ _ f

  -- Where an integration that is not ready was created, and the first write of its status is refused other
  -- than by a conflict, the reconcile ends with the error of that write, unless the write after it fails
  -- too; the status that is written there has the new id and reads Ready and Synced false and Error true,
  -- and is not ready.
  pub sync_slack_unrecorded :
      (s : SlackSession W) {r : IntegrationResponse} {e : Failure} {v u : W}
      → s.object.status.ready ≡ false
      → create_slack_integration t k.codec wanted s.world ≡ (ok r, v)
      → k.update_status (with_created s.object r) v ≡ (err e, u)
      → is e api_conflict ≡ false
      → (m : SlackIntegration) × (sync_slack k texts t wanted s.object s
          ≡ onward
              (try_write k (update_slack_integration_status k) (record { object = m; world = u }))
              (λ x. exit (failed e)))
        × Reads condition_false condition_false condition_true m.status.conditions
        × (m.status.ready ≡ false)
        × (m.status.id ≡ itoa r.id)
  unfolding recreate_slack slack_api_failed mark_unready on_status onward with_created
  sync_slack_unrecorded s {r} {e} {v} {u} n c q f =
      let o = with_created s.object r in
      let unready : SlackIntegration = record o { status = record o.status { ready = false } } in
      let (cs, eq, reads) =
        api_failed-Reads k (update_slack_integration_status k) {A = Unit {0}}
          (concat ("Failed to create integration: " ∷ e.message ∷ []))
          (concat ("Failed to sync with UptimeRobot: " ∷ e.message ∷ [])) e
          (record { object = unready; world = u }) in
      (
        with_conditions k unready cs,
        by_creation s.object s n
            ∙ ap (recreated_or k texts "Failed to create integration: ") (
                after_no_deletion s
                ∙ ap (created_slack k t wanted s) c
                ∙ write_refused (with_created s.object r) q f)
            ∙ eq,
        reads,
        refl,
        refl,
      )

  -- An integration that is not ready is created without a look at the id in its status: the creation is
  -- the only request, so that an integration with that id is neither updated nor deleted.
  pub sync_slack_unready_creates :
      (s s' : SlackSession W) {r : IntegrationResponse} {v : W}
      → s.object.status.ready ≡ false
      → create_slack_integration t k.codec wanted s.world ≡ (ok r, v)
      → update_slack_integration_status k (record { object = with_created s.object r; world = v })
        ≡ (none, s')
      → sync_slack k texts t wanted s.object s ≡ (continues tt, s')
  unfolding recreate_slack
  sync_slack_unready_creates s s' n c u =
      by_creation s.object s n
      ∙ ap (recreated_or k texts "Failed to create integration: ")
          (after_no_deletion s ∙ ap (created_slack k t wanted s) c ∙ u)
