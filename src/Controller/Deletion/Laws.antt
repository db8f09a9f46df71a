-- ===== src/Controller/Deletion/Laws.antt =====
-- When the finalizer of a maintenance window, a monitor group or a Slack integration is taken off
-- (internal/controller).
use uptime_robot_operator.Prelude.{
  ◌≡◌, refl, ap, String, true, ◌||◌, Option, if◌then◌else◌, Bool-cases, inl, inr,
}
use uptime_robot_operator.Prelude.Int.{pos}
use uptime_robot_operator.Failure.{Failure, Result, ok, err}
use uptime_robot_operator.Finalizer.Cleanup.{Handled, handle_finalizer_cleanup}
use uptime_robot_operator.Finalizer.Cleanup.Outcome.{returned}
use uptime_robot_operator.Reconcile.Session.{Exit, continues, exits, requeue_after}
use uptime_robot_operator.Controller.Session.{
  Object, Cluster, Session, Action, onward, exit, proceed, change, ◌>>=◌, ◌>>◌,
}
use uptime_robot_operator.Controller.Status.{Writer, write_object, try_write}
use uptime_robot_operator.Controller.Status.Laws.{with_conditions}
use uptime_robot_operator.Controller.Deletion.{
  track_object, load_object, reloaded_object, cleaned_object, cleanup_options, clean_up_object,
  retry_unless_done, finalize_object, delete_object,
}

module _ {W Spec Extra : Type 0} (k : Cluster W Spec Extra) (finalizer : String)
    (put : Writer W Spec Extra) where
  -- The end of a deletion, by what HandleFinalizerCleanup returns for the resource that was read again:
  -- its conditions are written first; then, where the cleanup neither succeeded nor is forced, the
  -- reconcile ends with the time to the next try and nothing more is sent, and else the resource is
  -- written without the finalizer.
  pub delete_object_end :
      (cleanup : Object Spec Extra → W → Option Failure × W) (s s₁ s₂ s₃ : Session W Spec Extra)
      {h : Handled} {v w : W} {stored : Object Spec Extra}
      → k.contains_finalizer s.object finalizer ≡ true
      → track_object k s ≡ (continues tt, s₁)
      → load_object k s₁ ≡ (continues tt, s₂)
      → handle_finalizer_cleanup k.time
          (k.clock s₂.world)
          (cleanup_options k s₂.object)
          (cleanup s₂.object)
          s₂.world
        ≡ (returned h, v)
      → try_write k put (record { object = with_conditions k s₂.object h.conditions; world = v })
        ≡ (continues tt, s₃)
      → k.update (k.remove_finalizer s₃.object finalizer) s₃.world ≡ (ok stored, w)
      → delete_object k finalizer put cleanup s ≡ (
          if h.result.success || h.result.force_remove
          then (exits (requeue_after (pos 0)), record { object = stored; world = w })
          else (exits (requeue_after h.result.requeue_after), s₃))
  unfolding delete_object finalize_object clean_up_object retry_unless_done onward write_object exit
      proceed try_write
  delete_object_end cleanup s s₁ s₂ s₃ {h} c p q r z u = rw c (
      rw p (
        rw q (
          rw r (
            rw z (elim (Bool-cases h.result.success) [
              | inl a ↦ rw a (rw u refl)
              | inr a ↦ elim (Bool-cases h.result.force_remove) [
                | inl b ↦ rw a (rw b (rw u refl))
                | inr b ↦ rw a (rw b refl)
              ]
            ])))))

  module _ (c c' : Object Spec Extra → W → Option Failure × W) where
    -- what follows the second read of the resource
    abbrev rest : (Object Spec Extra → W → Option Failure × W) → Action W Spec Extra (Unit {0})
    rest cleanup = do
      result ← clean_up_object k finalizer put cleanup
      try_write k put
      retry_unless_done k result
      change (λ o. k.remove_finalizer o finalizer)
      try_write k (write_object k)

    reloaded_cong :
        (s : Session W Spec Extra) (r : Result (Object Spec Extra)) (w : W)
        → ((o : Object Spec Extra) → r ≡ ok o → c o ≡ c' o)
        → onward (reloaded_object k s (r, w)) (λ u. rest c)
          ≡ onward (reloaded_object k s (r, w)) (λ u. rest c')
    unfolding onward clean_up_object
    reloaded_cong s (err e) w h = refl
    reloaded_cong s (ok o) w h =
        ap
          (λ f.
            onward
              (cleaned_object k (record { object = o; world = w })
                (handle_finalizer_cleanup k.time (k.clock w) (cleanup_options k o) f w))
              (λ result. do
                try_write k put
                retry_unless_done k result
                change (λ o. k.remove_finalizer o finalizer)
                try_write k (write_object k)))
          (h o refl)

    -- A deletion depends on what the cleanup does to the versions of the resource that may be read.
    pub delete_object_cong :
        (s : Session W Spec Extra)
        → ((o : Object Spec Extra) (v w : W) → k.get v ≡ (ok o, w) → c o ≡ c' o)
        → delete_object k finalizer put c s ≡ delete_object k finalizer put c' s
    unfolding delete_object finalize_object onward load_object
    delete_object_cong s h = elim (Bool-cases (k.contains_finalizer s.object finalizer)) [
      | inl e ↦ rw e (after_track (track_object k s))
      | inr e ↦ rw e refl
    ]
      where
        after_track :
            (p : Exit (Unit {0}) × Session W Spec Extra)
            → onward {B = Unit {0}}
                (onward p (λ u s'. onward (load_object k s') (λ u. rest c)))
                (λ u. exit (requeue_after (pos 0)))
              ≡ onward {B = Unit {0}}
                  (onward p (λ u s'. onward (load_object k s') (λ u. rest c')))
                  (λ u. exit (requeue_after (pos 0)))
        after_track (exits e, s') = refl
        after_track (continues u, s') =
            ap (λ p. onward p (λ u. exit (requeue_after (pos 0))))
              (reloaded_cong s' (k.get s'.world).0 (k.get s'.world).1
                (λ o e. h o s'.world _ (ap (λ r. (r, (k.get s'.world).1)) e)))
