-- ===== src/Reconcile/Main/ReportLaws.antt =====
-- What a client reads of a Monitor after a reconcile (internal/controller/monitor_controller.go).
use uptime_robot_operator.Prelude.{
  ℕ, ◌≡◌, refl, ◌∙◌, ap, String, false, Option, none, some, List, if◌then◌else◌, same_text,
  same_text_refl, Bool-cases, inl, inr, when_true, when_false,
}
use uptime_robot_operator.Prelude.Int.{ℤ}
use uptime_robot_operator.Failure.{Failure}
use uptime_robot_operator.Conditions.{
  Condition, ConditionStatus, condition_true, condition_false, set_condition, find_condition,
  set_ready_condition, set_synced_condition, set_error_condition, type_ready, type_synced,
  type_error, reason_reconcile_success, reason_sync_success, reason_api_error, reason_sync_error,
}
use uptime_robot_operator.Conditions.Laws.{written, find_condition-set_condition}
use uptime_robot_operator.Monitor.Resource.{Monitor}
use uptime_robot_operator.Reconcile.Session.{Cluster, Session, failed, onward, exit}
use uptime_robot_operator.Reconcile.Status.{on_status, save, sync_failed}
use uptime_robot_operator.Reconcile.Main.{stamp, succeed, synced_message}

abbrev pub status_of : Option Condition → Option ConditionStatus
status_of none = none
status_of (some c) = some c.status

-- the status that a client reads at a type
abbrev pub status_at : String → List Condition → Option ConditionStatus
status_at t cs = status_of (find_condition t cs)

status_of-written :
    (type : String) (status : ConditionStatus) (reason message : String) (generation now : ℤ)
    (o : Option Condition)
    → (written type status reason message generation now o).status ≡ status
status_of-written type status reason message generation now none = refl
status_of-written type status reason message generation now (some c) = refl

status_at-set_condition :
    (type : String) (status : ConditionStatus) (reason message : String) (generation now : ℤ)
    (cs : List Condition) (t : String)
    → status_at t (set_condition type status reason message generation now cs)
      ≡ (if same_text type t then some status else status_at t cs)
status_at-set_condition type status reason message generation now cs t =
    ap status_of (find_condition-set_condition type status reason message generation now cs t)
    ∙ elim (Bool-cases (same_text type t)) [
      | inl e ↦ rw e (
          ap some
            (status_of-written type status reason message generation now (find_condition type cs)))
      | inr e ↦ rw e refl
    ]

at_own_type :
    (type : String) (status : ConditionStatus) (reason message : String) (generation now : ℤ)
    (cs : List Condition)
    → status_at type (set_condition type status reason message generation now cs) ≡ some status
at_own_type type status reason message generation now cs =
    status_at-set_condition type status reason message generation now cs type
    ∙ when_true _ _ _ (same_text_refl type)

at_other_type :
    {o : Option ConditionStatus} (t type : String) (status : ConditionStatus)
    (reason message : String) (generation now : ℤ) (cs : List Condition)
    → same_text type t ≡ false
    → status_at t cs ≡ o
    → status_at t (set_condition type status reason message generation now cs) ≡ o
at_other_type t type status reason message generation now cs d h =
    status_at-set_condition type status reason message generation now cs t ∙ when_false _ _ _ d ∙ h

error_is_not_ready : same_text type_error type_ready ≡ false
unfolding same_text
error_is_not_ready = refl

synced_is_not_ready : same_text type_synced type_ready ≡ false
unfolding same_text
synced_is_not_ready = refl

error_is_not_synced : same_text type_error type_synced ≡ false
unfolding same_text
error_is_not_synced = refl

-- what SetCondition is given: a status, a reason and a message
pub record Report : Type 0 where
  pub status : ConditionStatus
  pub reason : String
  pub message : String

abbrev pub set_three : (ℕ → ℤ) → ℤ → Report → Report → Report → List Condition → List Condition
set_three clock generation ready synced error cs =
    set_condition type_error error.status error.reason error.message generation (clock 2) (
      set_condition type_synced synced.status synced.reason synced.message generation (clock 1)
        (set_condition type_ready ready.status ready.reason ready.message generation (clock 0) cs))

-- A client reads the three conditions with these statuses.
abbrev pub Reads : ConditionStatus → ConditionStatus → ConditionStatus → List Condition → Type 0
Reads ready synced error cs =
    (status_at type_ready cs ≡ some ready)
    × (status_at type_synced cs ≡ some synced)
    × (status_at type_error cs ≡ some error)

pub set_three-Reads :
    (clock : ℕ → ℤ) (generation : ℤ) (ready synced error : Report) (cs : List Condition)
    → Reads ready.status synced.status error.status
        (set_three clock generation ready synced error cs)
set_three-Reads clock generation ready synced error cs = (
  at_other_type type_ready type_error _ _ _ _ _ _ error_is_not_ready (
      at_other_type type_ready type_synced _ _ _ _ _ _ synced_is_not_ready
        (at_own_type type_ready _ _ _ _ _ _)),
  at_other_type type_synced type_error _ _ _ _ _ _ error_is_not_synced
      (at_own_type type_synced _ _ _ _ _ _),
  at_own_type type_error _ _ _ _ _ _,
)

module _ {W : Type 0} (k : Cluster W) where
  -- A reconcile that succeeds writes a status that reads Ready and Synced true and Error false, has
  -- the time of the synchronisation, and keeps the id.
  pub succeed_reports :
      (s : Session W)
      → (m : Monitor) × (succeed k s ≡ save k (record s { monitor = m }))
        × Reads condition_true condition_true condition_false m.status.conditions
        × (m.status.last_synced_time ≡ some (k.clock s.world 3))
        × (m.status.id ≡ s.monitor.status.id)
  unfolding succeed onward on_status stamp set_ready_condition set_synced_condition
      set_error_condition save
  succeed_reports s =
      let ready : Report = record {
        status = condition_true;
        reason = reason_reconcile_success;
        message = "Monitor reconciled successfully";
      } in
      let synced : Report = record {
        status = condition_true;
        reason = reason_sync_success;
        message = synced_message;
      } in
      let error : Report = record {
        status = condition_false;
        reason = reason_reconcile_success;
        message = "";
      } in
      let m = s.monitor in
      (
        record m {
          status = record m.status {
            conditions =
                set_three (k.clock s.world) m.generation ready synced error m.status.conditions;
            last_synced_time = some (k.clock s.world 3);
          };
        },
        refl,
        set_three-Reads (k.clock s.world) m.generation ready synced error m.status.conditions,
        refl,
        refl,
      )

  -- A call of the API that fails ends the reconcile with its error, unless the status cannot be written;
  -- the status that is written reads Ready and Synced false and Error true, and keeps the id.
  pub sync_failed_reports :
      {A : Type 0} (msg : String) (e : Failure) (s : Session W)
      → (m : Monitor) × (sync_failed k {A = A} msg e s
          ≡ onward (save k (record s { monitor = m })) (λ u. exit (failed e)))
        × Reads condition_false condition_false condition_true m.status.conditions
        × (m.status.id ≡ s.monitor.status.id)
  unfolding sync_failed onward on_status set_ready_condition set_synced_condition
      set_error_condition save
  sync_failed_reports msg e s =
      let ready : Report = record {
        status = condition_false;
        reason = reason_api_error;
        message = msg;
      } in
      let synced : Report = record {
        status = condition_false;
        reason = reason_sync_error;
        message = msg;
      } in
      let error : Report = record {
        status = condition_true;
        reason = reason_api_error;
        message = msg;
      } in
      let m = s.monitor in
      (
        record m {
          status = record m.status {
            conditions =
                set_three (k.clock s.world) m.generation ready synced error m.status.conditions;
          };
        },
        refl,
        set_three-Reads (k.clock s.world) m.generation ready synced error m.status.conditions,
        refl,
      )
