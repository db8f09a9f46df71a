-- ===== src/Api/Account.antt =====
-- internal/uptimerobot/client.go: GetAlertContacts, FindContactID and GetAccountDetails.
pub mod Laws
use uptime_robot_operator.Prelude.{
  String, Bool, true, false, Option, none, some, List, [], ◌∷◌, same_text, if◌then◌else◌,
}
use uptime_robot_operator.Strconv.{itoa}
use uptime_robot_operator.Failure.{Failure, Result, ok, err, failure, err_contact_not_found}
use uptime_robot_operator.Api.Wire.{AlertContactResponse, UserMeResponse}
use uptime_robot_operator.Api.Transport.{Transport, no_body, then_do, do_json}
use uptime_robot_operator.Api.Codec.{Codec}

abbrev pub contact_not_found : Failure
contact_not_found = failure "contact not found" (err_contact_not_found ∷ [])

-- the name of a contact is there and is the one that is looked for
abbrev pub is_named : String → Option String → Bool
is_named name none = false
is_named name (some n) = same_text n name

-- the loop of FindContactID
unfoldable pub first_named : String → List AlertContactResponse → Result String
first_named name [] = err contact_not_found
first_named name (c ∷ cs) =
    let rest = first_named name cs in if is_named name c.friendly_name then ok (itoa c.id) else rest

module _ {W : Type 0} (t : Transport W) (codec : Codec) where
  -- GetAlertContacts
  unfoldable pub get_alert_contacts : W → Result (List AlertContactResponse) × W
  get_alert_contacts = do_json t "GET" "user/alert-contacts" no_body codec.contacts

  -- FindContactID
  unfoldable pub find_contact_id : String → W → Result String × W
  find_contact_id name w =
      then_do (get_alert_contacts w) (λ contacts v. (first_named name contacts, v))

  -- GetAccountDetails
  unfoldable pub get_account_details : W → Result String × W
  get_account_details w =
      then_do (do_json t "GET" "user/me" no_body codec.user w) (λ user v. (ok user.email, v))
