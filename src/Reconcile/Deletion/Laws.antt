-- ===== src/Reconcile/Deletion/Laws.antt =====
-- When the finalizer of a Monitor is taken off (internal/controller/monitor_controller.go).
use uptime_robot_operator.Prelude.{◌≡◌, refl, true, ◌||◌, List, if◌then◌else◌, Bool-cases, inl, inr}
use uptime_robot_operator.Prelude.Int.{pos}
use uptime_robot_operator.Failure.{ok}
use uptime_robot_operator.Conditions.{Condition}
use uptime_robot_operator.Finalizer.Cleanup.{Handled, handle_finalizer_cleanup}
use uptime_robot_operator.Finalizer.Cleanup.Outcome.{returned}
use uptime_robot_operator.Monitor.Resource.{Monitor}
use uptime_robot_operator.Api.Transport.{Transport}
use uptime_robot_operator.Reconcile.Session.{
  Cluster, Session, continues, exits, requeue_after, onward, exit, proceed,
}
use uptime_robot_operator.Reconcile.Status.{save}
use uptime_robot_operator.Reconcile.Adopters.{cleanup_monitor}
use uptime_robot_operator.Reconcile.Deletion.{
  finalizer_name, track, reload, options, clean_up, update, requeue_unless_done, finalize,
  reconcile_deletion,
}

module _ {W : Type 0} (k : Cluster W) (t : Transport W) where
  -- the status with the conditions that HandleFinalizerCleanup leaves
  abbrev pub with_conditions : Monitor → List Condition → Monitor
  with_conditions m conditions = record m { status = record m.status { conditions = conditions } }

  -- The end of a deletion, by what HandleFinalizerCleanup returns for the Monitor that was read again:
  -- its conditions are written first; then, where the cleanup neither succeeded nor is forced, the
  -- reconcile ends with the time to the next try and nothing more is sent, and else the Monitor is
  -- written without the finalizer.
  pub reconcile_deletion_end :
      (s s₁ s₂ s₃ : Session W) {h : Handled} {v w : W} {stored : Monitor}
      → k.contains_finalizer s.monitor finalizer_name ≡ true
      → track k s ≡ (continues tt, s₁)
      → reload k s₁ ≡ (continues tt, s₂)
      → handle_finalizer_cleanup k.time
          (k.clock s₂.world)
          (options k s₂.monitor)
          (cleanup_monitor k t s₂.monitor)
          s₂.world
        ≡ (returned h, v)
      → save k (record { monitor = with_conditions s₂.monitor h.conditions; world = v })
        ≡ (continues tt, s₃)
      → k.update (k.remove_finalizer s₃.monitor finalizer_name) s₃.world ≡ (ok stored, w)
      → reconcile_deletion k t s ≡ (
          if h.result.success || h.result.force_remove
          then (exits (requeue_after (pos 0)), record { monitor = stored; world = w })
          else (exits (requeue_after h.result.requeue_after), s₃))
  unfolding reconcile_deletion finalize clean_up requeue_unless_done onward update exit proceed
  reconcile_deletion_end s s₁ s₂ s₃ {h} c p q r z u = rw c (
      rw p (
        rw q (
          rw r (
            rw z (elim (Bool-cases h.result.success) [
              | inl a ↦ rw a (rw u refl)
              | inr a ↦ elim (Bool-cases h.result.force_remove) [
                | inl b ↦ rw a (rw b (rw u refl))
                | inr b ↦ rw a (rw b refl)
              ]
            ])))))
