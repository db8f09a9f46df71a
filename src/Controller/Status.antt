-- ===== src/Controller/Status.antt =====
-- internal/controller: how the reconcilers of maintenance windows, monitor groups and Slack
-- integrations write the status, and the conditions that they leave on each way out.
pub mod Laws
use uptime_robot_operator.Prelude.{
  ℕ, String, Bool, true, false, Option, none, some, List, [], ◌∷◌, if◌then◌else◌,
}
use uptime_robot_operator.Prelude.Int.{ℤ}
use uptime_robot_operator.Text.{is_blank, concat}
use uptime_robot_operator.Failure.{Failure, Result, ok, err}
use uptime_robot_operator.Conditions.{
  Condition, set_ready_condition, set_synced_condition, set_error_condition, reason_api_error,
  reason_sync_error, reason_sync_success, reason_reconcile_success,
}
use uptime_robot_operator.Reconcile.Session.{Exit, continues, exits, failed}
use uptime_robot_operator.Controller.Session.{
  Object, Status, Cluster, Session, Action, onward, exit, on_status, ◌>>=◌, ◌>>◌,
}

-- what writes the status of the resource at hand
abbrev pub Writer : Type 0 → Type 0 → Type 0 → Type 0
Writer W Spec Extra = Session W Spec Extra → Option Failure × Session W Spec Extra

module _ {W Spec Extra : Type 0} (k : Cluster W Spec Extra) where
  abbrev pub stored_or :
      Session W Spec Extra → Result (Object Spec Extra) × W → Option Failure × Session W Spec Extra
  stored_or s (ok stored, w) = (none, record { object = stored; world = w })
  stored_or s (err e, w) = (some e, record s { world = w })

  -- r.Status().Update
  unfoldable pub write_status : Writer W Spec Extra
  write_status s = stored_or s (k.update_status s.object s.world)

  -- r.Update
  unfoldable pub write_object : Writer W Spec Extra
  write_object s = stored_or s (k.update s.object s.world)

  -- one of the wrappers of SetCondition, at reading n of the clock
  abbrev pub set_by :
      (Bool → String → String → ℤ → ℤ → List Condition → List Condition)
      → ℕ
      → Bool
      → String
      → String
      → Action W Spec Extra (Unit {0})
  set_by set n value reason message s =
      on_status
        (λ status. record status {
          conditions =
              set value reason message s.object.generation (k.clock s.world n) status.conditions;
        })
        s

  abbrev pub ends_on_error :
      Option Failure × Session W Spec Extra → Exit (Unit {0}) × Session W Spec Extra
  ends_on_error (none, s) = (continues tt, s)
  ends_on_error (some e, s) = (exits (failed e), s)

  -- `if err := ...; err != nil { return ctrl.Result{}, err }`
  unfoldable pub try_write : Writer W Spec Extra → Action W Spec Extra (Unit {0})
  try_write put s = ends_on_error (put s)

  unfoldable pub mark_unready : Action W Spec Extra (Unit {0})
  unfolding on_status
  mark_unready = on_status (λ st. record st { ready = false })

  -- Ready is taken away from a resource with no id only.
  unfoldable pub mark_unready_without_id : Action W Spec Extra (Unit {0})
  unfolding on_status
  mark_unready_without_id =
      on_status (λ st. record st { ready = if is_blank st.id then false else st.ready })

  module _ (put : Writer W Spec Extra) where
    -- a failure before the API is asked: Synced is left alone
    unfoldable pub refuse : {A : Type 0} → String → String → Failure → Action W Spec Extra A
    unfolding on_status
    refuse reason msg e = do
      set_by set_ready_condition 0 false reason msg
      set_by set_error_condition 1 true reason msg
      try_write put
      exit (failed e)

    -- the account or its key cannot be had
    unfoldable pub without_credentials :
        {A : Type 0} → String → String → Failure → Action W Spec Extra A
    without_credentials reason text e = do
      mark_unready_without_id
      refuse reason (concat (text ∷ e.message ∷ [])) e

    -- a failure of the API: the messages of Ready and Error, and of Synced, and what is returned
    unfoldable pub api_failed : {A : Type 0} → String → String → Failure → Action W Spec Extra A
    unfolding on_status
    api_failed msg synced e = do
      set_by set_ready_condition 0 false reason_api_error msg
      set_by set_synced_condition 1 false reason_sync_error synced
      set_by set_error_condition 2 true reason_api_error msg
      try_write put
      exit (failed e)

    -- the three conditions of a success, from reading n of the clock on, and the write
    unfoldable pub report_success : ℕ → String → Action W Spec Extra (Unit {0})
    unfolding on_status
    report_success n message = do
      set_by set_ready_condition n true reason_reconcile_success message
      set_by set_synced_condition (ℕ.suc n) true reason_sync_success
          "Successfully synced with UptimeRobot"
      set_by set_error_condition (ℕ.suc (ℕ.suc n)) false reason_reconcile_success ""
      try_write put
