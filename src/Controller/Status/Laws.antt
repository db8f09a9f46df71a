-- ===== src/Controller/Status/Laws.antt =====
-- What a client reads of a maintenance window, a monitor group or a Slack integration after a success
-- and after a failure (internal/controller).
use uptime_robot_operator.Prelude.{ℕ, zero, suc, ◌≡◌, refl, sym, ◌∙◌, String, List}
use uptime_robot_operator.Prelude.Int.{ℤ}
use uptime_robot_operator.Failure.{Failure}
use uptime_robot_operator.Conditions.{
  Condition, condition_true, condition_false, set_ready_condition, set_synced_condition,
  set_error_condition, reason_api_error, reason_sync_error, reason_sync_success,
  reason_reconcile_success,
}
use uptime_robot_operator.Reconcile.Session.{failed, continues}
use uptime_robot_operator.Reconcile.Main.ReportLaws.{Report, set_three, set_three-Reads, Reads}
use uptime_robot_operator.Controller.Session.{Object, Cluster, Session, onward, exit, on_status}
use uptime_robot_operator.Controller.Session.Laws.{onward-exit, Ends}
use uptime_robot_operator.Controller.Status.{
  Writer, refuse, without_credentials, mark_unready_without_id, try_write, api_failed,
  report_success,
}

-- three readings, as a clock
abbrev readings : ℤ → ℤ → ℤ → ℕ → ℤ
readings a b c zero = a
readings a b c (suc zero) = b
readings a b c (suc (suc n)) = c

module _ {W Spec Extra : Type 0} (k : Cluster W Spec Extra) where
  -- the object with other conditions
  abbrev pub with_conditions : Object Spec Extra → List Condition → Object Spec Extra
  with_conditions o cs = record o { status = record o.status { conditions = cs } }

  module _ (put : Writer W Spec Extra) where
    pub report_success-Reads :
        (n : ℕ) (message : String) (s : Session W Spec Extra)
        → (cs : List Condition) × (report_success k put n message s
            ≡ try_write k put (record s { object = with_conditions s.object cs }))
          × Reads condition_true condition_true condition_false cs
    unfolding report_success onward on_status set_ready_condition set_synced_condition
        set_error_condition
    report_success-Reads n message s =
        let ready : Report = record {
          status = condition_true;
          reason = reason_reconcile_success;
          message = message;
        } in
        let synced : Report = record {
          status = condition_true;
          reason = reason_sync_success;
          message = "Successfully synced with UptimeRobot";
        } in
        let error : Report = record {
          status = condition_false;
          reason = reason_reconcile_success;
          message = "";
        } in
        let clock : ℕ → ℤ =
          readings (k.clock s.world n) (k.clock s.world (suc n)) (k.clock s.world (suc (suc n))) in
        (
          set_three clock s.object.generation ready synced error s.object.status.conditions,
          refl,
          set_three-Reads clock s.object.generation ready synced error s.object.status.conditions,
        )

    pub api_failed-Reads :
        {A : Type 0} (msg synced_msg : String) (e : Failure) (s : Session W Spec Extra)
        → (cs : List Condition) × (api_failed k put {A = A} msg synced_msg e s
            ≡ onward
                (try_write k put (record s { object = with_conditions s.object cs }))
                (λ u. exit (failed e)))
          × Reads condition_false condition_false condition_true cs
    unfolding api_failed onward on_status set_ready_condition set_synced_condition
        set_error_condition
    api_failed-Reads msg synced_msg e s =
        let ready : Report = record {
          status = condition_false;
          reason = reason_api_error;
          message = msg;
        } in
        let synced : Report = record {
          status = condition_false;
          reason = reason_sync_error;
          message = synced_msg;
        } in
        let error : Report = record {
          status = condition_true;
          reason = reason_api_error;
          message = msg;
        } in
        let clock : ℕ → ℤ = k.clock s.world in
        (
          set_three clock s.object.generation ready synced error s.object.status.conditions,
          refl,
          set_three-Reads clock s.object.generation ready synced error s.object.status.conditions,
        )

    pub api_failed-Ends :
        {A : Type 0} (msg synced_msg : String) (e : Failure)
        → Ends (api_failed k put {A = A} msg synced_msg e)
    api_failed-Ends msg synced_msg e s a s' h =
        let (cs, eq, reads) = api_failed-Reads {A = _} msg synced_msg e s in
        onward-exit _ (failed e) (sym eq ∙ h)

    -- A success that goes on has written the three conditions.
    pub report_success-continues :
        (n : ℕ) (message : String) (s : Session W Spec Extra) {s' : Session W Spec Extra}
        → report_success k put n message s ≡ (continues tt, s')
        → (cs : List Condition) × Reads condition_true condition_true condition_false cs
          × (try_write k put (record s { object = with_conditions s.object cs })
              ≡ (continues tt, s'))
    report_success-continues n message s h =
        let (cs, eq, reads) = report_success-Reads n message s in (cs, reads, sym eq ∙ h)

    pub refuse-Ends :
        {A : Type 0} (reason msg : String) (e : Failure) → Ends (refuse k put {A = A} reason msg e)
    unfolding refuse onward on_status
    refuse-Ends reason msg e s a s' h = onward-exit _ (failed e) h

    pub without_credentials-Ends :
        {A : Type 0} (reason text : String) (e : Failure)
        → Ends (without_credentials k put {A = A} reason text e)
    unfolding without_credentials mark_unready_without_id onward on_status
    without_credentials-Ends reason text e s a s' h = refuse-Ends reason _ e _ a s' h
