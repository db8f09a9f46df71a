-- ===== src/Tests/ConditionTests.antt =====
-- Tests of the model of internal/controller/conditions.go and of strconv.
use uptime_robot_operator.Prelude.{
  ◌≡◌, refl, none, some, List, [], ◌∷◌, arith, same_text, if◌then◌else◌,
}
use uptime_robot_operator.Prelude.Int.{pos, negsuc}
use uptime_robot_operator.Strconv.{atoi, itoa}
use uptime_robot_operator.Strconv.RoundTrip.{atoi-itoa}
use uptime_robot_operator.Conditions.{
  Condition, condition_true, condition_false, set_condition, find_condition, type_ready,
}
use uptime_robot_operator.Conditions.Laws.{written, Distinct, find_condition-set_condition}

abbrev failing : Condition
failing = record {
  type = "Ready";
  status = condition_false;
  observed_generation = pos 1;
  last_transition_time = pos 10;
  reason = "APIError";
  message = "down";
}

abbrev list : List Condition
list = failing ∷ record failing { type = "Synced" } ∷ []

find_condition-set_condition_example :
    find_condition "Synced"
      (set_condition type_ready condition_true "ReconcileSuccess" "ok" (pos 2) (pos 20) list)
    ≡ (if same_text type_ready "Synced"
        then some (
            written type_ready condition_true "ReconcileSuccess" "ok"
              (pos 2)
              (pos 20)
              (find_condition type_ready list))
        else find_condition "Synced" list)
find_condition-set_condition_example =
    find_condition-set_condition type_ready condition_true "ReconcileSuccess" "ok" (pos 2) (pos 20)
      list "Synced"

list-Distinct : Distinct list
unfolding find_condition same_text
list-Distinct = (refl, (refl, tt))

atoi-itoa_example : atoi (itoa (negsuc 41)) ≡ some (negsuc 41)
atoi-itoa_example = atoi-itoa (negsuc 41) (omega arith)

itoa_negative : itoa (negsuc 41) ≡ "-42"
unfolding itoa
itoa_negative = refl

atoi_plus : atoi "+042" ≡ some (pos 42)
unfolding atoi
atoi_plus = refl

atoi_range : atoi "9223372036854775808" ≡ none
unfolding atoi
atoi_range = refl
