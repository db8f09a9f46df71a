-- ===== src/Reconcile/Deletion/AdoptedLaws.antt =====
-- The deletion of a Monitor whose monitor of UptimeRobot another resource has adopted, from end to end
-- (internal/controller/monitor_controller.go and finalizer.go).
use mathlib.Core.List.{Memᴰ}
use uptime_robot_operator.Prelude.{◌≡◌, refl, ◌∙◌, ap, ℕ, true, false, Option, none, List}
use uptime_robot_operator.Prelude.Int.{ℤ, pos, ltb_ℤ}
use uptime_robot_operator.Text.{is_blank}
use uptime_robot_operator.Failure.{Failure, ok}
use uptime_robot_operator.Conditions.{Condition}
use uptime_robot_operator.Finalizer.Annotations.{TimeFormat}
use uptime_robot_operator.Finalizer.Cleanup.{
  CleanupOptions, Outcome, Handled, is_skipped, elapsed, timeout_or_default, concluded,
  handle_finalizer_cleanup,
}
use uptime_robot_operator.Finalizer.Cleanup.Outcome.{returned}
use uptime_robot_operator.Monitor.Resource.{Monitor}
use uptime_robot_operator.Api.Transport.{Transport}
use uptime_robot_operator.Reconcile.Session.{Cluster, Session, continues, exits, requeue_after}
use uptime_robot_operator.Reconcile.Status.{save}
use uptime_robot_operator.Reconcile.Adopters.{cleanup_monitor}
use uptime_robot_operator.Reconcile.Adopters.Laws.{Adopts, cleanup_monitor_spares_adopted}
use uptime_robot_operator.Reconcile.Deletion.{
  finalizer_name, track, reload, options, reconcile_deletion,
}
use uptime_robot_operator.Reconcile.Deletion.Laws.{with_conditions, reconcile_deletion_end}

concluded_success :
    (time : TimeFormat) (clock : ℕ → ℤ) (opts : CleanupOptions)
    → (h : Handled) × (concluded time clock opts none ≡ returned h) × (h.result.success ≡ true)
unfolding concluded
concluded_success time clock opts = (_, refl, refl)

-- a cleanup that succeeds is handled as a success
handled_success :
    {W : Type 0} (time : TimeFormat) (clock : ℕ → ℤ) (opts : CleanupOptions)
    (cleanup : W → Option Failure × W) (w : W) {v : W}
    → is_skipped opts ≡ false
    → ltb_ℤ (timeout_or_default opts.cleanup_timeout) (elapsed time clock opts) ≡ false
    → cleanup w ≡ (none, v)
    → (h : Handled) × (handle_finalizer_cleanup time clock opts cleanup w ≡ (returned h, v))
      × (h.result.success ≡ true)
unfolding handle_finalizer_cleanup
handled_success time clock opts cleanup w {v} a b c =
    let (h, e, f) = concluded_success time clock opts in
    (h, rw a (rw b (rw c (ap (λ (o : Outcome). (o, v)) e))), f)

module _ {W : Type 0} (k : Cluster W) (t : Transport W) where
  -- A Monitor that is being deleted, whose monitor of UptimeRobot another resource of the namespace has
  -- adopted, loses its finalizer without a request to UptimeRobot: between the second read of the
  -- Monitor and the write of its status there is only the request for the resources of the
  -- namespace. The cleanup is neither skipped nor out of time, and the calls of the cluster succeed.
  pub reconcile_deletion_of_adopted :
      (s s₁ s₂ : Session W) (s₃ : List Condition → Session W) {all : List Monitor} {other : Monitor}
      {v : W} (stored : List Condition → Monitor) (w : List Condition → W)
      → k.contains_finalizer s.monitor finalizer_name ≡ true
      → track k s ≡ (continues tt, s₁)
      → reload k s₁ ≡ (continues tt, s₂)
      → is_skipped (options k s₂.monitor) ≡ false
      → ltb_ℤ
          (timeout_or_default (pos 0))
          (elapsed k.time (k.clock s₂.world) (options k s₂.monitor))
        ≡ false
      → s₂.monitor.spec.prune ≡ true
      → s₂.monitor.status.ready ≡ true
      → is_blank s₂.monitor.status.id ≡ false
      → k.list s₂.monitor.namespace s₂.world ≡ (ok all, v)
      → Memᴰ other all
      → Adopts s₂.monitor other
      → ((c : List Condition)
          → save k (record { monitor = with_conditions k t s₂.monitor c; world = v })
            ≡ (continues tt, s₃ c))
      → ((c : List Condition)
          → k.update (k.remove_finalizer (s₃ c).monitor finalizer_name) (s₃ c).world
            ≡ (ok (stored c), w c))
      → (c : List Condition) × (reconcile_deletion k t s
          ≡ (exits (requeue_after (pos 0)), record { monitor = stored c; world = w c }))
  reconcile_deletion_of_adopted s s₁ s₂ s₃ stored w c p q a b r y i l m d saves updates =
      let (h, e, f) =
        handled_success k.time (k.clock s₂.world) (options k s₂.monitor)
          (cleanup_monitor k t s₂.monitor) s₂.world a b
          (cleanup_monitor_spares_adopted k t s₂.monitor s₂.world r y i l m d) in
      (
        h.conditions,
        reconcile_deletion_end k t s s₁ s₂ (s₃ h.conditions) c p q e (saves h.conditions)
              (updates h.conditions)
            ∙ rw f refl,
      )
