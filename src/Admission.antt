-- ===== src/Admission.antt =====
-- api/v1alpha1/account_webhook.go and contact_webhook.go: the admission of Accounts and Contacts. The two
-- validators are alike but for the kind in their messages; of a resource they read its name and
-- whether it is the default.
pub mod Laws
use uptime_robot_operator.Prelude.{
  ℕ, zero, suc, String, Bool, true, false, not, Option, none, some, List, [], ◌∷◌, same_text, ◌==◌,
  if◌then◌else◌,
}
use uptime_robot_operator.Text.{concat}
use uptime_robot_operator.Failure.{Failure, Result, ok, err, failure, wrap}

pub record Resource : Type 0 where
  pub name : String
  pub is_default : Bool

-- "accounts" or "contacts", and "Account" or "Contact"
pub record Kind : Type 0 where
  pub plural : String
  pub singular : String

abbrev pub account_kind : Kind
account_kind = record { plural = "accounts"; singular = "Account" }

abbrev pub contact_kind : Kind
contact_kind = record { plural = "contacts"; singular = "Contact" }

-- the loop: the defaults under other names
unfoldable pub default_count : String → List Resource → ℕ
default_count name [] = 0
default_count name (existing ∷ items) =
    let rest = default_count name items in
    if not existing.is_default
    then rest
    else if same_text existing.name name
    then rest
    else suc rest

-- apierrors.NewInvalid with the one field error
unfoldable pub not_unique : Kind → String → Failure
not_unique kind name =
    failure
      (concat (
        kind.singular ∷ ".uptimerobot.com \"" ∷ name
        ∷ "\" is invalid: spec.isDefault: Forbidden: at most one " ∷ kind.singular
        ∷ " can have spec.isDefault=true" ∷ []))
      []

unfoldable pub counted : Kind → Resource → Result (List Resource) → Option Failure
unfolding default_count
counted kind r (err e) =
    some (wrap (concat ("listing " ∷ kind.plural ∷ " for default validation: " ∷ [])) e)
counted kind r (ok items) =
    if default_count r.name items == 0 then none else some (not_unique kind r.name)

-- validateUniqueDefault of both validators; `listed` is what the client lists
unfoldable pub validate_unique_default : Kind → Resource → Result (List Resource) → Option Failure
validate_unique_default kind r listed =
    let refusal = counted kind r listed in if not r.is_default then none else refusal

-- ValidateCreate and ValidateUpdate of the two validators, on a resource of the kind that they are for
abbrev pub validate_account : Resource → Result (List Resource) → Option Failure
validate_account account listed = validate_unique_default account_kind account listed

abbrev pub validate_contact : Resource → Result (List Resource) → Option Failure
validate_contact contact listed = validate_unique_default contact_kind contact listed
