-- ===== src/Reconcile/Main/Laws.antt =====
-- When a reconcile starts to work on UptimeRobot (internal/controller/monitor_controller.go).
use uptime_robot_operator.Prelude.{
  ◌≡◌, refl, ◌∙◌, ◌⊎◌, inl, inr, true, false, Bool-cases, when_false,
}
use uptime_robot_operator.Failure.{Failure, Result, ok, err}
use uptime_robot_operator.Monitor.Resource.{Monitor}
use uptime_robot_operator.Api.Transport.{Transport}
use uptime_robot_operator.Reconcile.Session.{Cluster, Session, exits, failed, onward}
use uptime_robot_operator.Reconcile.Deletion.{finalizer_name, update}
use uptime_robot_operator.Reconcile.Main.{
  ensure_finalizer, reconcile_live, reconcile_guarded, with_api,
}

module _ {W : Type 0} (k : Cluster W) where
  -- the Monitor with the finalizer
  abbrev added : Session W → Monitor
  added s = k.add_finalizer s.monitor finalizer_name

  -- The session that a reconcile goes on with: that at hand, where the finalizer is on the Monitor already, or
  -- that with the Monitor which the cluster has stored with the finalizer.
  pub data Guarded (s : Session W) : Session W → Type 0 where
    present : k.contains_finalizer s.monitor finalizer_name ≡ true → Guarded s s
    stored :
        {m : Monitor} {w : W}
        → k.contains_finalizer s.monitor finalizer_name ≡ false
        → k.update (added s) s.world ≡ (ok m, w)
        → Guarded s (record { monitor = m; world = w })

  -- Whatever the API is, the reconcile goes on from such a session.
  abbrev pub GoesOn : Session W → Type 0
  GoesOn s =
      (s' : Session W) × Guarded s s'
      × ((t : Transport W) → with_api k t s ≡ reconcile_guarded k t s')

  -- Whatever the API is, the reconcile ends with the error of the attempt to store the finalizer, in the
  -- world that the attempt has left.
  abbrev pub Refused : Session W → Type 0
  Refused s =
      (e : Failure) × (s' : Session W) × (k.contains_finalizer s.monitor finalizer_name ≡ false)
      × (k.update (added s) s.world ≡ (err e, s'.world))
      × ((t : Transport W) → with_api k t s ≡ (exits (failed e), s'))

  by_live :
      (t : Transport W) (s : Session W)
      → s.monitor.is_deleting ≡ false
      → with_api k t s ≡ reconcile_live k t s
  unfolding with_api
  by_live t s n = when_false _ _ _ n

  found :
      (t : Transport W) (s : Session W)
      → k.contains_finalizer s.monitor finalizer_name ≡ true
      → reconcile_live k t s ≡ reconcile_guarded k t s
  unfolding reconcile_live ensure_finalizer onward
  found t s y = rw y refl

  put_in :
      (t : Transport W) (s : Session W) {m : Monitor} {w : W}
      → k.contains_finalizer s.monitor finalizer_name ≡ false
      → k.update (added s) s.world ≡ (ok m, w)
      → reconcile_live k t s ≡ reconcile_guarded k t (record { monitor = m; world = w })
  unfolding reconcile_live ensure_finalizer update onward
  put_in t s c u = rw c (rw u refl)

  unstored :
      (t : Transport W) (s : Session W) {e : Failure} {w : W}
      → k.contains_finalizer s.monitor finalizer_name ≡ false
      → k.update (added s) s.world ≡ (err e, w)
      → reconcile_live k t s ≡ (exits (failed e), record { monitor = added s; world = w })
  unfolding reconcile_live ensure_finalizer update onward
  unstored t s c u = rw c (rw u refl)

  by_update :
      (s : Session W) (p : Result Monitor × W)
      → s.monitor.is_deleting ≡ false
      → k.contains_finalizer s.monitor finalizer_name ≡ false
      → k.update (added s) s.world ≡ p
      → GoesOn s ⊎ Refused s
  by_update s (ok m, w) n c u = inl (_, stored c u, λ t. by_live t s n ∙ put_in t s c u)
  by_update s (err e, w) n c u =
      inr (e, record { monitor = added s; world = w }, c, u, λ t. by_live t s n ∙ unstored t s c u)

  -- For every Monitor that is not being deleted, from the point on where its account is known: the reconcile
  -- goes on from the Monitor at hand, which has the finalizer, or from what the cluster has stored when it
  -- was asked to add the finalizer; or else the finalizer is missing, and the reconcile consists of the
  -- attempt to store it and ends with its error, in the world that the attempt has left, whatever the API
  -- is, so that nothing is asked of UptimeRobot.
  pub with_api-Guarded : (s : Session W) → s.monitor.is_deleting ≡ false → GoesOn s ⊎ Refused s
  with_api-Guarded s n = elim (Bool-cases (k.contains_finalizer s.monitor finalizer_name)) [
    | inl y ↦ inl (s, present y, λ t. by_live t s n ∙ found t s y)
    | inr c ↦ by_update s _ n c refl
  ]
