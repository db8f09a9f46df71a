-- ===== src/Tests/AdmissionTests.antt =====
-- Tests of the model of the admission webhooks of api/v1alpha1.
use uptime_robot_operator.Prelude.{
  ◌≡◌, ◌≤◌, refl, true, false, none, some, [], ◌∷◌, length, same_text,
}
use uptime_robot_operator.Text.{concat}
use uptime_robot_operator.Failure.{ok, failure}
use uptime_robot_operator.Admission.{
  Resource, account_kind, counted, validate_unique_default, not_unique, validate_account,
  validate_contact,
}
use uptime_robot_operator.Admission.Laws.{
  put, defaults, Reachable, empty, after, written, defaults_le_one,
}

abbrev main_account : Resource
main_account = record { name = "main"; is_default = true }

abbrev spare_account : Resource
spare_account = record { name = "spare"; is_default = true }

main_admitted : validate_account main_account (ok []) ≡ none
unfolding validate_unique_default counted
main_admitted = refl

main_stored : Reachable account_kind (put main_account [])
main_stored = after empty (written main_account main_admitted)

defaults_le_one_example : length (defaults (put main_account [])) ≤ 1
defaults_le_one_example = defaults_le_one account_kind main_stored

two_names : same_text "main" "spare" ≡ false
unfolding same_text
two_names = refl

second_refused :
    validate_contact spare_account (ok (main_account ∷ []))
    ≡ some (
        failure
          "Contact.uptimerobot.com \"spare\" is invalid: spec.isDefault: Forbidden: at most one Contact can have spec.isDefault=true"
          [])
unfolding validate_unique_default counted same_text not_unique concat
second_refused = refl
