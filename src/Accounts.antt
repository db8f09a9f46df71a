-- ===== src/Accounts.antt =====
-- api/v1alpha1/account_types.go and internal/controller/account_controller.go: the Account resource,
-- Reconcile and mapSecretToAccounts. An Account has no id, and that of its status is never read.
pub mod Laws
use uptime_robot_operator.Prelude.{
  String, Bool, true, false, Option, none, some, List, [], ◌∷◌, map, keep, same_text, not,
  if◌then◌else◌,
}
use uptime_robot_operator.Prelude.Int.{ℤ, pos}
use uptime_robot_operator.Text.{concat}
use uptime_robot_operator.Strconv.{itoa}
use uptime_robot_operator.Failure.{Failure, Result, ok, err}
use uptime_robot_operator.Conditions.{reason_secret_not_found}
use uptime_robot_operator.Api.Wire.{AlertContactResponse}
use uptime_robot_operator.Api.Transport.{Transport}
use uptime_robot_operator.Api.Account.{get_account_details, get_alert_contacts}
use uptime_robot_operator.Reconcile.Session.{Account, requeue_after}
use uptime_robot_operator.Reconcile.Access.{get_api_key, cluster_resource_namespace}
use uptime_robot_operator.Controller.Session.{
  Object, Cluster, Session, Action, onward, exit, on_status, held, call, read_or, value_or, ◌>>=◌,
  ◌>>◌,
}
use uptime_robot_operator.Controller.Status.{
  Writer, write_status, mark_unready, refuse, api_failed, report_success,
}
use uptime_robot_operator.Controller.Deletion.{load_object}

-- the reference to a secret is its name and a key
pub record AccountSpec : Type 0 where
  pub is_default : Bool
  pub secret : Account

pub record AlertContactInfo : Type 0 where
  pub id : String
  pub friendly_name : String
  pub type : String
  pub value : String

-- AccountStatus, less the fields that every status has
pub record AccountExtra : Type 0 where
  pub email : String
  pub alert_contacts : List AlertContactInfo

abbrev pub AccountAction : Type 0 → Type 0 → Type 0
AccountAction W A = Action W AccountSpec AccountExtra A

abbrev pub name_or_blank : Option String → String
name_or_blank none = ""
name_or_blank (some n) = n

-- the form of a contact in the status
unfoldable pub alert_contact_info : AlertContactResponse → AlertContactInfo
alert_contact_info c = record {
  id = itoa c.id;
  friendly_name = name_or_blank c.friendly_name;
  type = c.type;
  value = c.value;
}

-- An error of GetAlertContacts is logged, and there are no contacts then.
unfoldable pub contacts_or_none : Result (List AlertContactResponse) → List AlertContactResponse
contacts_or_none (ok cs) = cs
contacts_or_none (err e) = []

-- the account's name and secret, as mapSecretToAccounts reads a list of accounts
pub record Listed : Type 0 where
  pub name : String
  pub secret_name : String

unfoldable pub names_with_secret : String → List Listed → List String
unfolding keep
names_with_secret secret items =
    map (λ (a : Listed). a.name) (keep (λ a. same_text a.secret_name secret) items)

abbrev pub names_or_none : String → Result (List Listed) → List String
names_or_none secret (ok items) = names_with_secret secret items
names_or_none secret (err e) = []

-- mapSecretToAccounts: the accounts to reconcile where a secret changes, for what a list of all accounts
-- answers
unfoldable pub map_secret_to_accounts : String → String → Result (List Listed) → List String
unfolding names_with_secret
map_secret_to_accounts namespace name accounts =
    if not (same_text namespace cluster_resource_namespace) then [] else names_or_none name accounts

module _ {W : Type 0} (k : Cluster W AccountSpec AccountExtra) where
  abbrev put : Writer W AccountSpec AccountExtra
  put = write_status k

  unfoldable pub account_without_key : {A : Type 0} → Failure → AccountAction W A
  account_without_key e = do
    mark_unready k
    refuse k put reason_secret_not_found (concat ("Failed to get API key: " ∷ e.message ∷ [])) e

  unfoldable pub account_without_details : {A : Type 0} → Failure → AccountAction W A
  account_without_details e = do
    mark_unready k
    api_failed k put (concat ("Failed to get account details: " ∷ e.message ∷ []))
        (concat ("Failed to sync with UptimeRobot: " ∷ e.message ∷ [])) e

  unfoldable pub note_account :
      String → Result (List AlertContactResponse) → AccountAction W (Unit {0})
  unfolding on_status alert_contact_info contacts_or_none
  note_account email contacts = on_status (λ st. record st {
    ready = true;
    extra = record {
      email = email;
      alert_contacts = map alert_contact_info (contacts_or_none contacts);
    };
  })

  unfoldable pub sync_account : Transport W → AccountAction W (Unit {0})
  unfolding note_account account_without_details
  sync_account t = do
    email ← read_or (get_account_details t k.codec) account_without_details
    contacts ← call (get_alert_contacts t k.codec)
    note_account email contacts
    report_success k put 0 "Account reconciled successfully"

  observe : AccountAction W (Unit {0})
  observe s = on_status (λ st. record st { observed_generation = s.object.generation }) s

  -- Reconcile, on a resource that is not read yet
  unfoldable pub reconcile_account : AccountAction W (Unit {0})
  unfolding observe account_without_key sync_account
  reconcile_account = do
    load_object k
    observe
    o ← held
    key ← read_or (get_api_key k.accounts o.spec.secret) account_without_key
    sync_account (k.api key)
    exit (requeue_after (pos 0))
