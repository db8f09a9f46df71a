-- ===== src/Reconcile/Publish/Object.antt =====
-- internal/controller/monitor_controller.go: the Secret or ConfigMap that the URL of a heartbeat
-- monitor is published in. The two are written alike, and differ in the client's store and in the
-- word for them in messages.
use uptime_robot_operator.Prelude.{
  String, Bool, true, false, ◌&&◌, ◌||◌, not, Option, none, some, List, [], ◌∷◌, same_text,
  if◌then◌else◌,
}
use uptime_robot_operator.Text.{concat, is_blank}
use uptime_robot_operator.Failure.{Failure, Result, ok, err, failure, wrap, is, api_not_found}
use uptime_robot_operator.Finalizer.Annotations.{lookup, insert}
use uptime_robot_operator.Monitor.Resource.{Monitor}
use uptime_robot_operator.Reconcile.Session.{Store, Published}

-- delete(data, key)
unfoldable pub remove : String → List (String × String) → List (String × String)
remove key [] = []
remove key ((j, v) ∷ entries) =
    let rest = remove key entries in if same_text j key then rest else (j, v) ∷ rest

-- data[key], which is empty where the key is missing
abbrev pub or_empty : Option String → String
or_empty none = ""
or_empty (some v) = v

abbrev pub is_there : Option String → Bool
is_there none = false
is_there (some v) = true

-- the URL goes in, if it is not there
unfoldable pub with_url : String → String → List (String × String) → List (String × String)
with_url key url entries =
    if not (same_text (or_empty (lookup key entries)) url) then insert key url entries else entries

-- and the key of the last time goes out
unfoldable pub without_previous : String → String → List (String × String) → List (String × String)
without_previous key previous entries =
    if not (is_blank previous) && not (same_text previous key)
    then remove previous entries
    else entries

-- needsUpdate
unfoldable pub needs_update : String → String → String → List (String × String) → Bool
needs_update key previous url entries =
    not (same_text (or_empty (lookup key entries)) url)
    || ((not (is_blank previous) && not (same_text previous key))
        && is_there (lookup previous (with_url key url entries)))

abbrev pub wrapped : String → Option Failure → Option Failure
wrapped text none = none
wrapped text (some e) = some (wrap text e)

module _ {W : Type 0} (kind : String) (store : Store W) (monitor : Monitor) where
  abbrev pub message : String → String → String
  message action name = concat (
      "failed to " ∷ action ∷ " " ∷ kind ∷ " " ∷ monitor.namespace ∷ "/" ∷ name ∷ " for monitor "
      ∷ monitor.name ∷ ": " ∷ [])

  abbrev pub wrapped_call : String → Option Failure × W → Option Failure × W
  wrapped_call text (e, w) = (wrapped text e, w)

  abbrev pub create_owned : String → Published → Option Failure → W → Option Failure × W
  create_owned name o (some e) w = (some (wrap (message "set owner reference on" name) e), w)
  create_owned name o none w = wrapped_call (message "create" name) (store.create o w)

  -- a new object with the URL at the key
  unfoldable pub create_published : String → String → String → W → Option Failure × W
  create_published name key url w =
      let o : Published = record {
        name = name;
        namespace = monitor.namespace;
        is_controlled = true;
        entries = (key, url) ∷ [];
      } in
      create_owned name o (store.own o) w

  -- an object that is there
  unfoldable pub update_published :
      String → String → String → String → Published → W → Option Failure × W
  update_published name key previous url o w =
      let refused : Failure =
        failure
          (concat (
            "refusing to publish heartbeat URL to existing " ∷ kind ∷ " \"" ∷ name
            ∷ "\": object is not managed by Monitor \"" ∷ monitor.name ∷ "\"" ∷ []))
          [] in
      let entries = without_previous key previous (with_url key url o.entries) in
      let sent =
        wrapped_call (message "update" name) (store.update (record o { entries = entries }) w) in
      if not o.is_controlled
      then (some refused, w)
      else if not (needs_update key previous url o.entries)
      then (none, w)
      else sent

  unfoldable pub publish_to :
      String → String → String → String → Result Published × W → Option Failure × W
  publish_to name key previous url (ok o, w) = update_published name key previous url o w
  publish_to name key previous url (err e, w) =
      let created = create_published name key url w in
      if is e api_not_found then created else (some (wrap (message "get" name) e), w)

  -- reconcileHeartbeatURLSecret and reconcileHeartbeatURLConfigMap
  unfoldable pub reconcile_heartbeat_url :
      String → String → String → String → W → Option Failure × W
  reconcile_heartbeat_url name key previous url w =
      publish_to name key previous url (store.get name w)

-- an error of a deletion that is not "not found"
abbrev pub unless_missing : {W : Type 0} → Option Failure × W → Option Failure × W
unless_missing (none, w) = (none, w)
unless_missing (some e, w) = (if is e api_not_found then none else some e, w)

abbrev pub delete_owned : {W : Type 0} → Store W → Result Published × W → Option Failure × W
delete_owned store (err e, w) = (if is e api_not_found then none else some e, w)
delete_owned store (ok o, w) =
    let gone = unless_missing (store.delete o w) in if o.is_controlled then gone else (none, w)
