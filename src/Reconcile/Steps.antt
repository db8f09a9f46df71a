-- ===== src/Reconcile/Steps.antt =====
-- internal/controller/monitor_controller.go: the steps that the branches of Reconcile share, and those
-- before them: the contacts, the credentials, and the deletion of a monitor of another type.
pub mod Laws
use Prim.Native.Char.{code}
use uptime_robot_operator.Prelude.{
  ℕ, String, Bool, true, false, ◌&&◌, ◌||◌, not, Option, none, some, List, [], ◌∷◌, ltb, ◌==◌, ◌-◌,
  ◌*◌, if◌then◌else◌,
}
use uptime_robot_operator.Prelude.Int.{ℤ, pos}
use uptime_robot_operator.Text.{concat, is_blank}
use uptime_robot_operator.Failure.{Failure, Result, ok, err, failure, err_secret_missing_key}
use uptime_robot_operator.Urtypes.{MonitorType, same_type, type_heartbeat}
use uptime_robot_operator.Heartbeat.{
  normalize_heartbeat_base_url, build_heartbeat_url, monitor_state_label,
}
use uptime_robot_operator.Retry.Delay.{second}
use uptime_robot_operator.Finalizer.Annotations.{lookup}
use uptime_robot_operator.Monitor.{MonitorAuth, MonitorContact}
use uptime_robot_operator.Monitor.Resource.{Monitor, MonitorStatus, MonitorContactRef}
use uptime_robot_operator.Api.Transport.{Transport}
use uptime_robot_operator.Api.Monitors.{delete_monitor}
use uptime_robot_operator.Api.Create.{MonitorResult, Created}
use uptime_robot_operator.Api.Create.Created.{returned, unfinished, panicked}
use uptime_robot_operator.Reconcile.Session.{
  Cluster, Session, Action, Exit, Ending, Contact, continues, exits, failed, requeue_after, exit,
  proceed, held, change, call, ◌>>=◌, ◌>>◌,
}
use uptime_robot_operator.Reconcile.Status.{on_status, sync_failed}
use uptime_robot_operator.Reconcile.Access.{get_contact}

-- an error goes to its handler
unfoldable pub handled :
    {W : Type 0} → (Failure → Action W (Unit {0})) → Option Failure → Action W (Unit {0})
handled handler none s = (continues tt, s)
handled handler (some e) s = handler e s

unfoldable pub value_or : {W A : Type 0} → (Failure → Action W A) → Result A → Action W A
value_or handler (ok a) s = (continues a, s)
value_or handler (err e) s = handler e s

abbrev pub call_or :
    {W : Type 0} → (W → Option Failure × W) → (Failure → Action W (Unit {0})) → Action W (Unit {0})
call_or f handler = do e ← call f; handled handler e

abbrev pub read_or : {W A : Type 0} → (W → Result A × W) → (Failure → Action W A) → Action W A
read_or f handler = do r ← call f; value_or handler r

-- CreateMonitor or EditMonitor
unfoldable pub created_or :
    {W : Type 0} → Created W → (Failure → Action W MonitorResult) → Action W MonitorResult
unfolding value_or
created_or (returned r w) handler s = value_or handler r (record s { world = w })
created_or unfinished handler s = (exits Ending.unfinished, s)
created_or panicked handler s = (exits Ending.panicked, s)

-- Status.Status and Status.State
unfoldable pub mark : {W : Type 0} → ℕ → Action W (Unit {0})
unfolding on_status
mark n = on_status (λ st. record st { status = n; state = monitor_state_label n })

unfoldable pub mark_unready : {W : Type 0} → Action W (Unit {0})
unfolding on_status
mark_unready = on_status (λ st. record st { ready = false })

-- what the status keeps of an answer: its URL counts for heartbeat monitors only
unfoldable pub heartbeat_url_of : String → Monitor → String → String → String
heartbeat_url_of base_url m id url =
    if same_type m.spec.monitor.type type_heartbeat && not (is_blank url)
    then build_heartbeat_url (normalize_heartbeat_base_url base_url) id url
    else m.status.heartbeat_url

-- strings.ToUpper(s) == t, for a text t in capital letters of ASCII: the two letters that are not of
-- ASCII and have such capitals count.
abbrev upper : ℕ → ℕ
upper c =
    if not (ltb c b'a') && not (ltb b'z' c)
    then c - 32
    else if c == 0x131
    then b'I'
    else if c == 0x17f
    then b'S'
    else c

unfoldable pub same_upper : String → String → Bool
same_upper String.[] String.[] = true
same_upper String.[] (String.◌∷◌ d t) = false
same_upper (String.◌∷◌ c s) String.[] = false
same_upper (String.◌∷◌ c s) (String.◌∷◌ d t) = upper (code c) == code d && same_upper s t

module _ {W : Type 0} (k : Cluster W) where
  contact_of : MonitorContactRef → Contact → Action W MonitorContact
  contact_of ref contact =
      if is_blank contact.status_id
      then exit (requeue_after (pos (2 * second)))
      else proceed (record { id = contact.status_id; common = ref.common })

  -- the loop over the contacts of the specification
  unfoldable pub resolve_contacts : List MonitorContactRef → Action W (List MonitorContact)
  unfolding contact_of
  resolve_contacts [] = proceed []
  resolve_contacts (ref ∷ refs) = do
    contact ← read_or (get_contact k ref.name) (λ e. exit (failed e))
    c ← contact_of ref contact
    cs ← resolve_contacts refs
    proceed (c ∷ cs)

  missing_key : String → Failure
  missing_key key =
      failure (concat ("secret missing key: " ∷ key ∷ [])) (err_secret_missing_key ∷ [])

  key_or : String → Option String → Action W String
  unfolding missing_key
  key_or key none = exit (failed (missing_key key))
  key_or key (some value) = proceed value

  set_auth : MonitorAuth → Action W (Unit {0})
  set_auth auth = change (λ m. record m {
    spec = record m.spec { monitor = record m.spec.monitor { auth = some auth } };
  })

  password_of : MonitorAuth → List (String × String) → Action W (Unit {0})
  unfolding set_auth key_or
  password_of auth entries = do
    password ← key_or auth.password_key (lookup auth.password_key entries)
    set_auth (record auth { password = password })

  credentials : MonitorAuth → List (String × String) → Action W (Unit {0})
  unfolding set_auth key_or password_of
  credentials auth entries = do
    username ← key_or auth.username_key (lookup auth.username_key entries)
    let named = record auth { username = username }
    set_auth named
    if not (is_blank auth.password_key) then password_of named entries else proceed tt

  -- the credentials of a monitor, from the Secret that it names
  unfoldable pub resolve_auth : Option MonitorAuth → Action W (Unit {0})
  unfolding credentials
  resolve_auth none s = (continues tt, s)
  resolve_auth (some auth) s =
      let read =
        (do
          entries ←
              read_or (k.get_secret s.monitor.namespace auth.secret_name) (λ e. exit (failed e))
          credentials auth entries)
          s in
      if not (is_blank auth.secret_name) then read else (continues tt, s)

  forget_monitor : Action W (Unit {0})
  unfolding on_status
  forget_monitor = on_status (λ st. record st { ready = false; id = ""; heartbeat_url = "" })

  module _ (t : Transport W) where
    -- A monitor of another type is deleted, to be created again.
    unfoldable pub delete_other_type : Action W (Unit {0})
    unfolding forget_monitor
    delete_other_type s =
        let m = s.monitor in
        let replaced =
          (do
            call_or (delete_monitor t m.status.id) (λ e.
                sync_failed k
                  (concat ("Failed to delete monitor for type change: " ∷ e.message ∷ [])) e)
            forget_monitor)
            s in
        if not (is_blank m.status.id) && not (same_type m.status.type m.spec.monitor.type)
        then replaced
        else (continues tt, s)
