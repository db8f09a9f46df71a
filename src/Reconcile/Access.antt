-- ===== src/Reconcile/Access.antt =====
-- internal/controller/account_controller.go and contact_controller.go: how a reconciler finds the
-- account, its API key and a contact.
use uptime_robot_operator.Prelude.{String, not, Option, none, some, List, [], ◌∷◌, if◌then◌else◌}
use uptime_robot_operator.Text.{trim_space, concat, is_blank}
use uptime_robot_operator.Failure.{
  Failure, Result, ok, err, failure, err_no_default_account, err_multiple_default_account,
  err_key_not_found, err_empty_key,
}
use uptime_robot_operator.Finalizer.Annotations.{lookup}
use uptime_robot_operator.Reconcile.Session.{Accounts, Cluster, Account, Contact}

abbrev pub cluster_resource_namespace : String
cluster_resource_namespace = "uptime-robot-system"

-- the only object of a list, or one of two errors
unfoldable pub only_default : {A : Type 0} → Failure → Failure → List A → Result A
only_default no_default several [] = err no_default
only_default no_default several (a ∷ []) = ok a
only_default no_default several (a ∷ b ∷ more) = err several

abbrev pub in_list : {W A : Type 0} → (List A → Result A) → Result (List A) × W → Result A × W
in_list f (ok items, w) = (f items, w)
in_list f (err e, w) = (err e, w)

abbrev pub no_default_account : Failure
no_default_account = failure "no default account" (err_no_default_account ∷ [])

abbrev pub multiple_default_account : Failure
multiple_default_account =
    failure "more than 1 default account found" (err_multiple_default_account ∷ [])

-- the two errors of GetContact, which nothing asks for by name
abbrev pub no_default_contact : Failure
no_default_contact = failure "no default contact" []

abbrev pub multiple_default_contact : Failure
multiple_default_contact = failure "more than 1 default contact found" []

-- the key in the data of the secret
unfoldable pub key_in : String → Option String → Result String
key_in key none =
    err (failure (concat ("secret key not found: " ∷ key ∷ [])) (err_key_not_found ∷ []))
key_in key (some value) =
    let trimmed = trim_space value in
    if is_blank trimmed
    then err (failure (concat ("secret key value is empty: " ∷ key ∷ [])) (err_empty_key ∷ []))
    else ok trimmed

abbrev pub key_of_secret :
    {W : Type 0} → String → Result (List (String × String)) × W → Result String × W
key_of_secret key (err e, w) = (err e, w)
key_of_secret key (ok entries, w) = (key_in key (lookup key entries), w)

module _ {W : Type 0} (k : Accounts W) where
  -- GetAccount
  unfoldable pub get_account : String → W → Result Account × W
  unfolding only_default
  get_account name w =
      let named = k.get_account name w in
      let default =
        in_list (only_default no_default_account multiple_default_account)
          (k.list_default_accounts w) in
      if not (is_blank name) then named else default

  -- GetApiKey
  unfoldable pub get_api_key : Account → W → Result String × W
  unfolding key_in
  get_api_key account w =
      key_of_secret account.secret_key
        (k.get_secret cluster_resource_namespace account.secret_name w)

module _ {W : Type 0} (k : Cluster W) where
  -- GetContact
  unfoldable pub get_contact : String → W → Result Contact × W
  unfolding only_default
  get_contact name w =
      let named = k.get_contact name w in
      let default =
        in_list (only_default no_default_contact multiple_default_contact)
          (k.list_default_contacts w) in
      if not (is_blank name) then named else default
