-- ===== src/Tests/AccountTests.antt =====
-- Tests of the models of internal/controller/account_controller.go and contact_controller.go.
use Prim.Native.Nat.{ℕ}
use uptime_robot_operator.Prelude.{◌≡◌, refl, String, true, false, List, [], ◌∷◌, same_text}
use uptime_robot_operator.Prelude.Int.{pos}
use uptime_robot_operator.Strconv.{itoa}
use uptime_robot_operator.Failure.{Failure, ok, err, failure}
use uptime_robot_operator.Conditions.{condition_true, condition_false}
use uptime_robot_operator.Api.Transport.{do_json, exchange, new_request, checked, then_do}
use uptime_robot_operator.Api.Account.{
  get_account_details, get_alert_contacts, find_contact_id, first_named,
}
use uptime_robot_operator.Reconcile.Main.ReportLaws.{Reads}
use uptime_robot_operator.Controller.Session.{
  Object, Cluster, Session, onward, on_status, call, value_or, proceed,
}
use uptime_robot_operator.Controller.Status.{write_status, try_write}
use uptime_robot_operator.Accounts.{AccountSpec, AccountExtra, Listed, sync_account}
use uptime_robot_operator.Accounts.Laws.{sync_account_loses_contacts}
use uptime_robot_operator.Contacts.{
  ContactSpec, ContactExtra, contact_id, sync_contact, resolve_contact, note_contact,
  report_contact,
}
use uptime_robot_operator.Contacts.Laws.{Chosen, Synced, contact_id-Chosen, sync_contact-Synced}
use uptime_robot_operator.Tests.ControllerTests.{resource, holding, writes, counting, constant}

abbrev two_accounts : List Listed
two_accounts =
    record { name = "a"; secret_name = "keys" } ∷ record { name = "b"; secret_name = "other" } ∷ []

abbrev account : Session ℕ AccountSpec AccountExtra
account = record {
  object =
      resource false []
        (record { is_default = true; secret = record { secret_name = "s"; secret_key = "k" } }) true
        ""
        (record {
          email = "old@b";
          alert_contacts =
              record { id = "9"; friendly_name = "mail"; type = "email"; value = "a@b" } ∷ [];
        });
  world = 0;
}

abbrev broken : Failure
broken = failure "broken" []

-- the contacts cannot be decoded
abbrev accounts : Cluster ℕ AccountSpec AccountExtra
accounts = record (holding account.object writes (ok "")) {
  codec = record constant { contacts = λ s. err broken };
}

sync_account_loses_contacts_example :
    (m : Object AccountSpec AccountExtra) × (sync_account accounts (counting (ok "")) account
      ≡ try_write accounts (write_status accounts) (record { object = m; world = 2 }))
    × Reads condition_true condition_true condition_false m.status.conditions
    × (m.status.ready ≡ true)
    × (m.status.extra.email ≡ "a@b")
    × (m.status.extra.alert_contacts ≡ [])
unfolding get_account_details get_alert_contacts do_json exchange new_request checked then_do
sync_account_loses_contacts_example =
    sync_account_loses_contacts accounts (counting (ok "")) account {e = broken} refl refl

abbrev contact_named : String → ContactSpec
contact_named name = record {
  is_default = false;
  account = "";
  contact = record { id = ""; name = name };
}

abbrev contact : Session ℕ ContactSpec ContactExtra
contact = record { object = resource false [] (contact_named "mail") false "" tt; world = 0 }

abbrev contacts : Cluster ℕ ContactSpec ContactExtra
contacts = holding contact.object writes (ok "")

contact_id-Chosen_example :
    Chosen contacts
      (counting (ok ""))
      (contact_named "mail").contact
      contact
      (itoa (pos 9))
      true
      (record contact { world = 1 })
unfolding contact_id proceed onward call value_or find_contact_id get_alert_contacts first_named
    do_json exchange new_request checked then_do same_text
contact_id-Chosen_example =
    contact_id-Chosen contacts (counting (ok "")) (contact_named "mail").contact contact
      {id = itoa (pos 9)} {s' = record contact { world = 1 }} refl

abbrev synced : Session ℕ ContactSpec ContactExtra
synced = (sync_contact contacts (counting (ok "")) contact.object contact).1

sync_contact-Synced_example : Synced contacts (counting (ok "")) contact synced
unfolding sync_contact resolve_contact contact_id note_contact report_contact write_status try_write
    on_status proceed onward call value_or find_contact_id get_alert_contacts first_named do_json
    exchange new_request checked then_do same_text
sync_contact-Synced_example = sync_contact-Synced contacts (counting (ok "")) contact synced refl
