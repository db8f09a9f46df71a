-- ===== src/Contacts.antt =====
-- api/v1alpha1/contact_types.go and internal/controller/contact_controller.go: the Contact resource and
-- Reconcile.
pub mod Laws
use uptime_robot_operator.Prelude.{
  ℕ, String, Bool, true, false, not, Option, none, some, List, [], ◌∷◌, if◌then◌else◌,
}
use uptime_robot_operator.Prelude.Int.{ℤ, pos}
use uptime_robot_operator.Text.{concat, is_blank}
use uptime_robot_operator.Failure.{Failure, Result, ok, err, failure}
use uptime_robot_operator.Conditions.{
  Condition, condition_unknown, set_condition, set_ready_condition, set_synced_condition,
  set_error_condition, type_synced, reason_reconcile_error, reason_secret_not_found,
  reason_reconcile_success, reason_sync_success, reason_sync_skipped,
}
use uptime_robot_operator.Api.Transport.{Transport}
use uptime_robot_operator.Api.Account.{find_contact_id}
use uptime_robot_operator.Reconcile.Session.{continues, requeue_after}
use uptime_robot_operator.Reconcile.Access.{get_account, get_api_key}
use uptime_robot_operator.Controller.Session.{
  proceed, Object, Cluster, Session, Action, onward, exit, on_status, held, call, read_or, value_or,
  ◌>>=◌, ◌>>◌,
}
use uptime_robot_operator.Controller.Status.{
  Writer, write_status, try_write, set_by, mark_unready, refuse, api_failed,
}
use uptime_robot_operator.Controller.Deletion.{load_object}

pub record ContactValues : Type 0 where
  pub id : String
  pub name : String

pub record ContactSpec : Type 0 where
  pub is_default : Bool
  pub account : String
  pub contact : ContactValues

-- ContactStatus has no fields but those that every status has.
abbrev pub ContactExtra : Type 0
ContactExtra = Unit {0}

abbrev pub ContactAction : Type 0 → Type 0 → Type 0
ContactAction W A = Action W ContactSpec ContactExtra A

module _ {W : Type 0} (k : Cluster W ContactSpec ContactExtra) where
  abbrev put : Writer W ContactSpec ContactExtra
  put = write_status k

  -- the account or its key cannot be had
  unfoldable pub contact_refused : {A : Type 0} → String → String → Failure → ContactAction W A
  contact_refused reason text e = do
    mark_unready k
    refuse k put reason (concat (text ∷ e.message ∷ [])) e

  unfoldable pub contact_not_found_by_name : {A : Type 0} → Failure → ContactAction W A
  contact_not_found_by_name e = do
    let msg = concat ("Failed to find contact: " ∷ e.message ∷ [])
    mark_unready k
    api_failed k put msg msg e

  abbrev pub unspecified : Failure
  unspecified = failure "contact must specify either id or name" []

  unfoldable pub contact_unspecified : {A : Type 0} → ContactAction W A
  contact_unspecified = do
    mark_unready k
    refuse k put reason_reconcile_error unspecified.message unspecified

  -- the conditions of a success, where the reference was looked up or not
  unfoldable pub report_contact : Bool → String → ContactAction W (Unit {0})
  unfolding on_status
  report_contact true skipped = do
    set_by k set_ready_condition 0 true reason_reconcile_success "Contact reconciled successfully"
    set_by k set_synced_condition 1 true reason_sync_success
        "Successfully validated contact reference"
    set_by k set_error_condition 2 false reason_reconcile_success ""
    try_write k put
  report_contact false skipped = do
    set_by k set_ready_condition 0 true reason_reconcile_success "Contact reconciled successfully"
    set_by k (λ value. set_condition type_synced condition_unknown) 1 false reason_sync_skipped
        skipped
    set_by k set_error_condition 2 false reason_reconcile_success ""
    try_write k put

  unfoldable pub note_contact : String → ContactAction W (Unit {0})
  unfolding on_status
  note_contact id = on_status (λ st. record st { ready = true; id = id })

  unfoldable pub mark_contact_ready : ContactAction W (Unit {0})
  unfolding on_status
  mark_contact_ready = on_status (λ st. record st { ready = true })

  -- the id of the specification, or the id of the contact with its name; and whether it was looked up
  unfoldable pub contact_id : Transport W → ContactValues → ContactAction W (String × Bool)
  unfolding contact_unspecified contact_not_found_by_name
  contact_id t v s =
      let named =
        (do
          id ← read_or (find_contact_id t k.codec v.name) contact_not_found_by_name
          proceed (id, true))
          s in
      let unnamed = contact_unspecified s in
      if not (is_blank v.id)
      then (continues (v.id, false), s)
      else if not (is_blank v.name)
      then named
      else unnamed

  unfoldable pub resolve_contact : Transport W → ContactValues → ContactAction W (Unit {0})
  unfolding contact_id note_contact report_contact
  resolve_contact t v = do
    found ← contact_id t v
    note_contact found.0
    report_contact found.1 "Skipped contact validation; using spec.contact.id"

  unfoldable pub keep_contact : ContactAction W (Unit {0})
  unfolding mark_contact_ready report_contact
  keep_contact = do
    mark_contact_ready
    report_contact false "Skipped contact validation; using existing status.id"

  -- A contact that has an id keeps it.
  unfoldable pub sync_contact :
      Transport W → Object ContactSpec ContactExtra → ContactAction W (Unit {0})
  unfolding resolve_contact keep_contact
  sync_contact t o = if is_blank o.status.id then resolve_contact t o.spec.contact else keep_contact

  observe : ContactAction W (Unit {0})
  observe s = on_status (λ st. record st { observed_generation = s.object.generation }) s

  -- Reconcile, on a resource that is not read yet
  unfoldable pub reconcile_contact : ContactAction W (Unit {0})
  unfolding observe contact_refused sync_contact
  reconcile_contact = do
    load_object k
    observe
    o ← held
    a ←
        read_or (get_account k.accounts o.spec.account)
          (contact_refused reason_reconcile_error "Failed to get account: ")
    key ←
        read_or (get_api_key k.accounts a)
          (contact_refused reason_secret_not_found "Failed to get API key: ")
    sync_contact (k.api key) o
    exit (requeue_after (pos 0))
