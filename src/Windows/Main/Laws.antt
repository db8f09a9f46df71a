-- ===== src/Windows/Main/Laws.antt =====
-- What a synchronisation of a maintenance window comes to
-- (internal/controller/maintenancewindow_controller.go).
use uptime_robot_operator.Prelude.{
  ◌≡◌, refl, ◌∙◌, ap, String, Bool, true, false, not, some, List, [], ◌∷◌, length, if◌then◌else◌,
}
use uptime_robot_operator.Prelude.Int.{ℤ}
use uptime_robot_operator.Text.{concat}
use uptime_robot_operator.Strconv.{itoa}
use uptime_robot_operator.Failure.{Failure, Result, ok, err, wrap, is_not_found}
use uptime_robot_operator.Conditions.{condition_true, condition_false}
use uptime_robot_operator.Api.Wire.{MaintenanceWindowResponse}
use uptime_robot_operator.Api.Transport.{Transport}
use uptime_robot_operator.Api.Windows.{create_maintenance_window, update_maintenance_window}
use uptime_robot_operator.Reconcile.Session.{continues, failed}
use uptime_robot_operator.Reconcile.Main.ReportLaws.{Reads}
use uptime_robot_operator.Controller.Session.{onward, call, exit}
use uptime_robot_operator.Controller.Status.{write_status, try_write}
use uptime_robot_operator.Controller.Status.Laws.{api_failed-Reads, with_conditions}
use uptime_robot_operator.Windows.Resource.{
  MaintenanceWindow, WindowCluster, WindowSession, create_window_request, update_window_request,
}
use uptime_robot_operator.Windows.Main.{
  window_not_updated, create_window, recreate_window, window_answer, update_window, sync_window,
}

module _ {W : Type 0} (k : WindowCluster W) (t : Transport W) (ids : List ℤ) where
  -- The requests that may lie behind a success, with the answer to the last and the id that the window
  -- then has: a creation where the window was not ready; else an update; or a creation after an update
  -- that was answered with "not found".
  pub data Requests (o : MaintenanceWindow) (w : W)
      : MaintenanceWindowResponse → W → String → Type 0 where
    created :
        {r : MaintenanceWindowResponse} {v : W}
        → o.status.ready ≡ false
        → create_maintenance_window t k.codec (create_window_request o.spec ids) w ≡ (ok r, v)
        → Requests o w r v (itoa r.id)
    updated :
        {r : MaintenanceWindowResponse} {v : W}
        → o.status.ready ≡ true
        → update_maintenance_window t k.codec o.status.id (update_window_request o.spec ids) w
          ≡ (ok r, v)
        → Requests o w r v o.status.id
    recreated :
        {r : MaintenanceWindowResponse} {e : Failure} {u v : W}
        → o.status.ready ≡ true
        → update_maintenance_window t k.codec o.status.id (update_window_request o.spec ids) w
          ≡ (err e, u)
        → is_not_found (some e) ≡ true
        → create_maintenance_window t k.codec (create_window_request o.spec ids) u ≡ (ok r, v)
        → Requests o w r v (itoa r.id)

  -- a window whose status is what an answer to a success says
  pub record Says (o m : MaintenanceWindow) (r : MaintenanceWindowResponse) (its : String)
      : Type 0 where
    pub spec : m.spec ≡ o.spec
    pub ready : m.status.ready ≡ true
    pub id : m.status.id ≡ its
    pub count : m.status.extra.monitor_count ≡ length r.monitor_ids
    pub reads : Reads condition_true condition_true condition_false m.status.conditions

  -- the last write of a success
  abbrev pub Success : WindowSession W → WindowSession W → Type 0
  Success s s' =
      (r : MaintenanceWindowResponse) × (v : W) × (id : String) × (m : MaintenanceWindow) × Requests
        s.object s.world r v id
      × Says s.object m r id
      × (try_write k (write_status k) (record { object = m; world = v }) ≡ (continues tt, s'))

  -- the branches of an answer that is an error, and of the synchronisation
  by_answer :
      (s : WindowSession W) (e : Failure) (u : W) {b : Bool}
      → is_not_found (some e) ≡ b
      → window_answer k t ids s.object.spec (err e) (record s { world = u })
        ≡ (if b then recreate_window k t ids s.object.spec else window_not_updated k e)
            (record s { world = u })
  unfolding window_answer
  by_answer s e u f =
      ap
        (λ (b : Bool).
          (if b then recreate_window k t ids s.object.spec else window_not_updated k e)
            (record s { world = u }))
        f

  by_ready :
      (o : MaintenanceWindow) (s : WindowSession W) {b : Bool}
      → o.status.ready ≡ b
      → sync_window k t ids o s
        ≡ (if not b then create_window k t ids o.spec else update_window k t ids o) s
  unfolding sync_window
  by_ready o s y =
      ap (λ (b : Bool). (if not b then create_window k t ids o.spec else update_window k t ids o) s)
        y

  -- An update that is refused, other than by "not found", is reported in the conditions, and the reconcile
  -- ends with its error, unless the status cannot be written; the window stays ready under its id.
  pub sync_window_refused :
      (s : WindowSession W) (e : Failure) (u : W)
      → s.object.status.ready ≡ true
      → update_maintenance_window t k.codec s.object.status.id
          (update_window_request s.object.spec ids)
          s.world
        ≡ (err e, u)
      → is_not_found (some e) ≡ false
      → (m : MaintenanceWindow) × (sync_window k t ids s.object s
          ≡ onward
              (try_write k (write_status k) (record { object = m; world = u }))
              (λ x. exit (failed (wrap "failed to update maintenance window: " e))))
        × Reads condition_false condition_false condition_true m.status.conditions
        × (m.status.ready ≡ true)
        × (m.status.id ≡ s.object.status.id)
        × (m.spec ≡ s.object.spec)
  unfolding update_window window_not_updated call onward
  sync_window_refused s e u y q n =
      let (cs, eq, reads) =
        api_failed-Reads k (write_status k) {A = Unit {0}}
          (concat ("Failed to update maintenance window: " ∷ e.message ∷ []))
          (concat ("Failed to sync with UptimeRobot: " ∷ e.message ∷ []))
          (wrap "failed to update maintenance window: " e) (record s { world = u }) in
      (
        with_conditions k s.object cs,
        by_ready s.object s y
            ∙ ap
                (λ (p : Result MaintenanceWindowResponse × W).
                  window_answer k t ids s.object.spec p.0 (record s { world = p.1 }))
                q
            ∙ by_answer s e u n
            ∙ eq,
        reads,
        y,
        refl,
        refl,
      )
