-- ===== src/Slack/Status/Laws.antt =====
-- What lies behind a success of recreateSlackIntegration
-- (internal/controller/slackintegration_controller.go).
use mathlib.Core.Path.{subst}
use uptime_robot_operator.Prelude.{
  ◌≡◌, refl, sym, ap, ◌∙◌, true, false, Option, none, some, Bool-cases, inl, inr, when_true,
  when_false,
}
use uptime_robot_operator.Prelude.Int.{ℤ, pos, ltb_ℤ}
use uptime_robot_operator.Strconv.{itoa}
use uptime_robot_operator.Failure.{Failure, Result, ok, err, is, api_conflict}
use uptime_robot_operator.Api.Wire.{SlackIntegrationData, IntegrationResponse}
use uptime_robot_operator.Api.Transport.{Transport}
use uptime_robot_operator.Api.Integrations.{create_slack_integration, delete_integration}
use uptime_robot_operator.Slack.Resource.{SlackIntegration, SlackCluster, SlackSession}
use uptime_robot_operator.Slack.Status.{
  with_created, reapply_slack, second_write, on_latest_slack, first_write, created_slack,
  deleted_slack, recreate_slack_integration, update_slack_integration_status,
}

module _ {W : Type 0} (k : SlackCluster W) (t : Transport W) (wanted : SlackIntegrationData) where
  -- there is no integration to delete, or it was deleted
  pub data Gone (id : ℤ) (w : W) : W → Type 0 where
    nothing : ltb_ℤ (pos 0) id ≡ false → Gone id w w
    deleted :
        {v : W} → ltb_ℤ (pos 0) id ≡ true → delete_integration t id w ≡ (none, v) → Gone id w v

  -- what a creation says in the status of a resource
  pub record Says (r : IntegrationResponse) (o m : SlackIntegration) : Type 0 where
    pub spec : m.spec ≡ o.spec
    pub ready : m.status.ready ≡ true
    pub id : m.status.id ≡ itoa r.id
    pub type : m.status.extra.type ≡ "Slack"

  -- The status is stored from world w on, for a resource o: at once, with what the cluster answers; or on the
  -- latest version of the resource, after a conflict.
  pub data Recorded (r : IntegrationResponse) (o : SlackIntegration) (w : W)
      : SlackSession W → Type 0 where
    at_once :
        {m stored : SlackIntegration} {u : W}
        → Says r o m
        → k.update_status m w ≡ (ok stored, u)
        → Recorded r o w (record { object = stored; world = u })
    on_latest :
        {m n latest stored : SlackIntegration} {e : Failure} {x y u : W}
        → Says r o m
        → k.update_status m w ≡ (err e, x)
        → is e api_conflict ≡ true
        → k.get x ≡ (ok latest, y)
        → Says r latest n
        → k.update_status n y ≡ (ok stored, u)
        → Recorded r o w (record { object = m; world = u })

  -- what lies behind a recreation without an error
  pub data Recreation (id : ℤ) (s s' : SlackSession W) : Type 0 where
    recreated :
        {r : IntegrationResponse} {v w : W}
        → Gone id s.world v
        → create_slack_integration t k.codec wanted v ≡ (ok r, w)
        → Recorded r s.object w s'
        → Recreation id s s'

  no_error :
      {e : Failure} {s s' : SlackSession W}
      → ¬ (◌≡◌ {A = Option Failure × SlackSession W} (some e, s) (none, s'))
  no_error h = cc

  same_end :
      {s s' : SlackSession W}
      → ◌≡◌ {A = Option Failure × SlackSession W} (none, s) (none, s')
      → s ≡ s'
  same_end h = ap (λ (p : Option Failure × SlackSession W). p.1) h

  module _ (r : IntegrationResponse) (s s' : SlackSession W) (w : W) where
    abbrev noted : SlackSession W
    noted = record { object = with_created s.object r; world = w }

    noted-Says : Says r s.object (with_created s.object r)
    unfolding with_created
    noted-Says = record { spec = refl; ready = refl; id = refl; type = refl }

    latest-Says :
        (latest : SlackIntegration) → Says r latest (reapply_slack (with_created s.object r) latest)
    unfolding with_created reapply_slack
    latest-Says latest = record { spec = refl; ready = refl; id = refl; type = refl }

    at_latest :
        (e : Failure) (x y : W) (latest : SlackIntegration) (q : Result SlackIntegration × W)
        → k.update_status (with_created s.object r) w ≡ (err e, x)
        → is e api_conflict ≡ true
        → k.get x ≡ (ok latest, y)
        → k.update_status (reapply_slack (with_created s.object r) latest) y ≡ q
        → second_write k noted q ≡ (none, s')
        → Recorded r s.object w s'
    at_latest e x y latest (ok stored, u) f c g q h =
        subst (Recorded r s.object w) (same_end h)
          (on_latest noted-Says f c g (latest-Says latest) q)
    at_latest e x y latest (err d, u) f c g q h = absurd (no_error h)

    after_conflict :
        (e : Failure) (x : W) (q : Result SlackIntegration × W)
        → k.update_status (with_created s.object r) w ≡ (err e, x)
        → is e api_conflict ≡ true
        → k.get x ≡ q
        → on_latest_slack k noted q ≡ (none, s')
        → Recorded r s.object w s'
    after_conflict e x (ok latest, y) f c g h = at_latest e x y latest _ f c g refl h
    after_conflict e x (err d, y) f c g h = absurd (no_error h)

    after_write :
        (q : Result SlackIntegration × W)
        → k.update_status (with_created s.object r) w ≡ q
        → first_write k noted q ≡ (none, s')
        → Recorded r s.object w s'
    after_write (ok stored, u) f h =
        subst (Recorded r s.object w) (same_end h) (at_once noted-Says f)
    after_write (err e, x) f h = elim (Bool-cases (is e api_conflict)) [
      | inl c ↦ after_conflict e x _ f c refl (sym (when_true _ _ _ c) ∙ h)
      | inr c ↦ absurd (no_error (sym (when_false _ _ _ c) ∙ h))
    ]

  after_creation :
      (id : ℤ) (s s' : SlackSession W) (v : W) (p : Result IntegrationResponse × W)
      → Gone id s.world v
      → create_slack_integration t k.codec wanted v ≡ p
      → created_slack k t wanted s p ≡ (none, s')
      → Recreation id s s'
  unfolding update_slack_integration_status
  after_creation id s s' v (ok r, w) g e h = recreated g e (after_write r s s' w _ refl h)
  after_creation id s s' v (err f, w) g e h = absurd (no_error h)

  after_deletion :
      (id : ℤ) (s s' : SlackSession W) (p : Option Failure × W)
      → ltb_ℤ (pos 0) id ≡ true
      → delete_integration t id s.world ≡ p
      → deleted_slack k t wanted s p ≡ (none, s')
      → Recreation id s s'
  after_deletion id s s' (some f, w) y e h = absurd (no_error h)
  after_deletion id s s' (none, w) y e h = after_creation id s s' w _ (deleted y e) refl h

  -- Behind every recreation without an error there are, in this order, a deletion of the integration that
  -- succeeded, where there is an id to delete, a creation that was answered, and a write of the status that
  -- was stored. That status is ready, of the type Slack and with the id of the answer, and stands with the
  -- specification of the resource at hand, or after a conflict with that of its latest version.
  pub recreate_slack-Recreation :
      (id : ℤ) (s s' : SlackSession W)
      → recreate_slack_integration k t wanted id s ≡ (none, s')
      → Recreation id s s'
  unfolding recreate_slack_integration
  recreate_slack-Recreation id s s' h = elim (Bool-cases (ltb_ℤ (pos 0) id)) [
    | inl y ↦
        after_deletion id s s' _ y refl
          (ap (deleted_slack k t wanted s) (sym (when_true _ _ _ y)) ∙ h)
    | inr n ↦
        after_creation id s s' s.world _ (nothing n) refl
          (ap (deleted_slack k t wanted s) (sym (when_false _ _ _ n)) ∙ h)
  ]
