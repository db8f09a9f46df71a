-- ===== src/Conditions.antt =====
-- internal/controller/conditions.go: the list of status conditions of a resource. The time of
-- metav1.Now() is an argument, in nanoseconds.
pub mod Laws
use uptime_robot_operator.Prelude.{
  ℕ, String, Bool, true, false, ◌&&◌, Option, none, some, List, [], ◌∷◌, ◌++◌, same_text,
  if◌then◌else◌,
}
use uptime_robot_operator.Prelude.Int.{ℤ}

pub data ConditionStatus : Type 0 where
  condition_true condition_false condition_unknown : ConditionStatus

-- metav1.Condition
pub record Condition : Type 0 where
  pub type : String
  pub status : ConditionStatus
  pub observed_generation : ℤ
  pub last_transition_time : ℤ
  pub reason : String
  pub message : String

abbrev pub type_ready : String
type_ready = "Ready"

abbrev pub type_synced : String
type_synced = "Synced"

abbrev pub type_error : String
type_error = "Error"

abbrev pub type_deleting : String
type_deleting = "Deleting"

abbrev pub reason_reconcile_success : String
reason_reconcile_success = "ReconcileSuccess"

abbrev pub reason_reconcile_error : String
reason_reconcile_error = "ReconcileError"

abbrev pub reason_sync_success : String
reason_sync_success = "SyncSuccess"

abbrev pub reason_sync_error : String
reason_sync_error = "SyncError"

abbrev pub reason_sync_skipped : String
reason_sync_skipped = "SyncSkipped"

abbrev pub reason_api_error : String
reason_api_error = "APIError"

abbrev pub reason_secret_not_found : String
reason_secret_not_found = "SecretNotFound"

abbrev pub same_status : ConditionStatus → ConditionStatus → Bool
same_status condition_true condition_true = true
same_status condition_false condition_false = true
same_status condition_unknown condition_unknown = true
same_status _ _ = false

-- the update of the entry that the loop has found
refresh : ConditionStatus → String → String → ℤ → ℤ → Condition → Condition
refresh status reason message generation now c =
    if same_status c.status status && same_text c.reason reason && same_text c.message message
    then record c { observed_generation = generation }
    else record c {
      status = status;
      reason = reason;
      message = message;
      last_transition_time = now;
      observed_generation = generation;
    }

-- SetCondition on the list that the pointer refers to
unfoldable pub set_condition :
    String → ConditionStatus → String → String → ℤ → ℤ → List Condition → List Condition
unfolding refresh
set_condition type status reason message generation now [] =
    record {
      type = type;
      status = status;
      observed_generation = generation;
      last_transition_time = now;
      reason = reason;
      message = message;
    }
    ∷ []
set_condition type status reason message generation now (c ∷ cs) =
    if same_text c.type type
    then refresh status reason message generation now c ∷ cs
    else c ∷ set_condition type status reason message generation now cs

-- SetCondition: a nil pointer is left alone.
unfoldable pub set_condition_at :
    String
    → ConditionStatus
    → String
    → String
    → ℤ
    → ℤ
    → Option (List Condition)
    → Option (List Condition)
unfolding set_condition
set_condition_at type status reason message generation now none = none
set_condition_at type status reason message generation now (some cs) =
    some (set_condition type status reason message generation now cs)

abbrev pub status_of : Bool → ConditionStatus
status_of b = if b then condition_true else condition_false

unfoldable pub set_ready_condition :
    Bool → String → String → ℤ → ℤ → List Condition → List Condition
set_ready_condition ready = set_condition type_ready (status_of ready)

unfoldable pub set_synced_condition :
    Bool → String → String → ℤ → ℤ → List Condition → List Condition
set_synced_condition synced = set_condition type_synced (status_of synced)

unfoldable pub set_error_condition :
    Bool → String → String → ℤ → ℤ → List Condition → List Condition
set_error_condition has_error = set_condition type_error (status_of has_error)

-- meta.FindStatusCondition, by which a client reads the list
unfoldable pub find_condition : String → List Condition → Option Condition
find_condition type [] = none
find_condition type (c ∷ cs) = if same_text c.type type then some c else find_condition type cs
