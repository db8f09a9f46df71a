-- ===== src/Request/Laws.antt =====
-- Laws of the monitor requests of internal/uptimerobot/client.go.
use uptime_robot_operator.Prelude.{
  ℕ, suc, ◌+◌, ◌*◌, ◌^◌, ◌≤◌, ◌<◌, ◌≡◌, refl, ap, false, Option, none, some, List, [], ◌∷◌, arith,
  length, if◌then◌else◌, Bool-cases, inl, inr,
}
use uptime_robot_operator.Prelude.Int.{ℤ, pos, ◌≤ℤ◌, pos_part}
use uptime_robot_operator.Text.{is_blank}
use uptime_robot_operator.Urtypes.{same_type, type_dns, type_heartbeat}
use uptime_robot_operator.Monitor.{MonitorValues, MonitorContact}
use uptime_robot_operator.Request.Payload.{
  AssignedAlertContactRequest, CreateMonitorRequest, UpdateMonitorRequest,
}
use uptime_robot_operator.Request.Fields.{
  grace_period_seconds, contacts_to_v3_format, minutes, minute, seconds, at_least_zero,
}
use uptime_robot_operator.Request.Build.{
  create_request, update_request, both, build_create_monitor_request, build_update_monitor_request,
}

grace_period_bounds :
    (d : Option ℤ) → (pos 0 ≤ℤ grace_period_seconds d) × (grace_period_seconds d ≤ℤ pos 86400)
unfolding grace_period_seconds
grace_period_bounds none = omega arith
grace_period_bounds (some d) = ground arith

abbrev pub map_option {ℓ κ} : {A : Type ℓ} {B : Type κ} → (A → B) → Option A → Option B
map_option f none = none
map_option f (some a) = some (f a)

module _ (m : MonitorValues) (contacts : List MonitorContact) where
  -- The grace period of a request, to create or to update, lies within 0 and 86400 seconds,
  -- whatever the resource asks for.
  pub grace_period_in_range :
      (i t : ℤ)
      → let create = create_request m contacts i t in
        let update = update_request m contacts i t in
        (pos 0 ≤ℤ create.grace_period)
        × (create.grace_period ≤ℤ pos 86400)
        × (pos 0 ≤ℤ update.grace_period)
        × (update.grace_period ≤ℤ pos 86400)
  unfolding create_request update_request
  grace_period_in_range i t =
      let (low, high) = grace_period_bounds m.grace_period in (low, high, low, high)

  -- What an update sends of a created monitor: all but the type, and the URL unless the type
  -- forbids it.
  abbrev pub as_update : CreateMonitorRequest → UpdateMonitorRequest
  as_update r = record {
    friendly_name = r.friendly_name;
    url =
        if same_type m.type type_dns
        then ""
        else if same_type m.type type_heartbeat
        then ""
        else r.url;
    interval = r.interval;
    timeout = r.timeout;
    grace_period = r.grace_period;
    http_method = r.http_method;
    http_username = r.http_username;
    http_password = r.http_password;
    http_auth_type = r.http_auth_type;
    post_type = r.post_type;
    post_value = r.post_value;
    keyword_type = r.keyword_type;
    keyword_case_type = r.keyword_case_type;
    keyword_value = r.keyword_value;
    port = r.port;
    assigned_alert_contacts = r.assigned_alert_contacts;
    config = r.config;
    custom_http_headers = r.custom_http_headers;
    success_http_response_codes = r.success_http_response_codes;
    check_ssl_errors = r.check_ssl_errors;
    tag_names = r.tag_names;
    maintenance_windows_ids = r.maintenance_windows_ids;
    domain_expiration_reminder = r.domain_expiration_reminder;
    ssl_expiration_reminder = r.ssl_expiration_reminder;
    follow_redirections = r.follow_redirections;
    response_time_threshold = r.response_time_threshold;
    regional_data = r.regional_data;
    group_id = r.group_id;
  }

  -- The two builders agree: for every resource an update carries what a create carries, less the
  -- type, and less the URL for DNS and heartbeat monitors; and one panics where the other does.
  pub update-eq-create :
      build_update_monitor_request m contacts
      ≡ map_option as_update (build_create_monitor_request m contacts)
  unfolding build_update_monitor_request build_create_monitor_request
  update-eq-create = go m.interval m.timeout
    where
      go :
          (i t : Option ℤ)
          → both (update_request m contacts) i t
            ≡ map_option as_update (both (create_request m contacts) i t)
      go (some i) (some t) = refl
      go none t = refl
      go (some i) none = refl

at_least_zero_nonneg : (n : ℤ) → pos 0 ≤ℤ at_least_zero n
at_least_zero_nonneg n = ground arith

abbrev pub IsSendable : AssignedAlertContactRequest → Type 0
IsSendable r = (is_blank r.alert_contact_id ≡ false) × (pos 0 ≤ℤ r.threshold)

abbrev pub All {ℓ κ} : {A : Type ℓ} → (A → Type κ) → List A → Type κ
All P [] = Unit
All P (x ∷ xs) = P x × All P xs

abbrev pub with_id : List MonitorContact → ℕ
with_id [] = 0
with_id (c ∷ cs) = if is_blank c.id then with_id cs else suc (with_id cs)

-- The alert contacts sent are as many as the contacts that have an id; each has an id and a
-- threshold that is not negative.
pub contacts_to_v3_format-IsSendable :
    (cs : List MonitorContact)
    → All IsSendable (contacts_to_v3_format cs) × (length (contacts_to_v3_format cs) ≡ with_id cs)
unfolding contacts_to_v3_format
contacts_to_v3_format-IsSendable [] = (tt, refl)
contacts_to_v3_format-IsSendable (c ∷ cs) = elim (Bool-cases (is_blank c.id)) [
  | inl e ↦ rw e (contacts_to_v3_format-IsSendable cs)
  | inr e ↦
      let ih = contacts_to_v3_format-IsSendable cs in
      rw e (((e, at_least_zero_nonneg (seconds c.threshold)), ih.0), ap suc ih.1)
]

-- The repeat interval sent is the duration rounded to the nearest minute: it is at most half a
-- minute off, for any duration below the largest one by a minute.
pub minutes_nearest :
    (n : ℕ)
    → n + minute < 2 ^ 63
    → (2 * (pos_part (minutes (pos n)) * minute) ≤ 2 * n + minute)
      × (2 * n ≤ 2 * (pos_part (minutes (pos n)) * minute) + minute)
unfolding minutes
minutes_nearest n h = ground arith
