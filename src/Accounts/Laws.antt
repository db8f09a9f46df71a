-- ===== src/Accounts/Laws.antt =====
-- Which accounts a change of a secret concerns, and what an account keeps of its contacts
-- (internal/controller/account_controller.go).
use mathlib.Core.List.{Memᴰ}
use uptime_robot_operator.Prelude.{
  ◌≡◌, refl, String, Bool, true, List, [], ◌↔◌, same_text, same_text_iff, keep, keep_members,
  map_members,
}
use uptime_robot_operator.Failure.{Failure, ok, err}
use uptime_robot_operator.Conditions.{condition_true, condition_false}
use uptime_robot_operator.Api.Transport.{Transport}
use uptime_robot_operator.Api.Account.{get_account_details, get_alert_contacts}
use uptime_robot_operator.Reconcile.Access.{cluster_resource_namespace}
use uptime_robot_operator.Reconcile.Main.ReportLaws.{Reads}
use uptime_robot_operator.Controller.Session.{
  Object, Cluster, Session, onward, on_status, call, value_or,
}
use uptime_robot_operator.Controller.Status.{write_status, try_write}
use uptime_robot_operator.Controller.Status.Laws.{report_success-Reads, with_conditions}
use uptime_robot_operator.Accounts.{
  AccountSpec, AccountExtra, Listed, names_with_secret, map_secret_to_accounts, note_account,
  sync_account, contacts_or_none,
}

-- an account of a list that has a secret and a name
abbrev pub Uses : List Listed → String → String → Type 0
Uses items secret name = (a : Listed) × Memᴰ a items × (a.secret_name ≡ secret) × (name ≡ a.name)

names_with_secret_members :
    (secret name : String) (items : List Listed)
    → Memᴰ name (names_with_secret secret items) ↔ Uses items secret name
unfolding names_with_secret
names_with_secret_members secret name items =
    let has : Listed → Bool = λ a. same_text a.secret_name secret in
    let named = map_members (λ (a : Listed). a.name) name (keep has items) in
    (
      λ h.
          let (a, m, n) = named.0 h in
          let (t, e) = (keep_members has a items).0 m in
          (a, t, (same_text_iff a.secret_name secret).0 e, n),
      λ (a, t, e, n).
          named.1
            (a, (keep_members has a items).1 (t, (same_text_iff a.secret_name secret).1 e), n),
    )

-- A change of a secret in the namespace of the operator asks for a reconcile of exactly the accounts that
-- refer to it by name.
pub map_secret_members :
    (secret name : String) (items : List Listed)
    → Memᴰ name (map_secret_to_accounts cluster_resource_namespace secret (ok items))
      ↔ Uses items secret name
unfolding map_secret_to_accounts
map_secret_members secret name items =
    let e : same_text cluster_resource_namespace cluster_resource_namespace ≡ true =
      (same_text_iff _ _).1 refl in
    rw e (names_with_secret_members secret name items)

module _ {W : Type 0} (k : Cluster W AccountSpec AccountExtra) where
  -- Where the details of the account can be read and its contacts cannot, the status that is written is
  -- ready with the address that was read, reads Ready and Synced true and Error false, and has no contacts,
  -- whichever it had before.
  pub sync_account_loses_contacts :
      (t : Transport W) (s : Session W AccountSpec AccountExtra) {email : String} {e : Failure}
      {v u : W}
      → get_account_details t k.codec s.world ≡ (ok email, v)
      → get_alert_contacts t k.codec v ≡ (err e, u)
      → (m : Object AccountSpec AccountExtra) × (sync_account k t s
          ≡ try_write k (write_status k) (record { object = m; world = u }))
        × Reads condition_true condition_true condition_false m.status.conditions
        × (m.status.ready ≡ true)
        × (m.status.extra.email ≡ email)
        × (m.status.extra.alert_contacts ≡ [])
  unfolding sync_account note_account contacts_or_none on_status onward call value_or
  sync_account_loses_contacts t s {email} {e} {v} {u} d c =
      let o : Object AccountSpec AccountExtra = record s.object {
        status = record s.object.status {
          ready = true;
          extra = record { email = email; alert_contacts = [] };
        };
      } in
      let (cs, eq, reads) =
        report_success-Reads k (write_status k) 0 "Account reconciled successfully"
          (record { object = o; world = u }) in
      (with_conditions k o cs, rw d (rw c eq), reads, refl, refl, refl)
