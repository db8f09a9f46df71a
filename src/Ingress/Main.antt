-- ===== src/Ingress/Main.antt =====
-- internal/controller/ingress_controller.go: findMonitors and Reconcile. The index that findMonitors asks
-- is that of internal/controller/monitor_controller.go.
pub mod Laws
use uptime_robot_operator.Prelude.{
  ℕ, String, Bool, true, false, not, Option, none, some, List, [], ◌∷◌, keep, same_text,
  if◌then◌else◌,
}
use uptime_robot_operator.Prelude.Int.{pos}
use uptime_robot_operator.Text.{concat}
use uptime_robot_operator.Failure.{Failure, Result, ok, err, failure}
use uptime_robot_operator.Finalizer.Annotations.{Annotations, lookup}
use uptime_robot_operator.Monitor.Resource.{Monitor, MonitorSpec, SourceRef}
use uptime_robot_operator.Reconcile.Session.{Ending, failed, requeue_after, panicked}
use uptime_robot_operator.Reconcile.Deletion.{finalizer_name, ignore_not_found}
use uptime_robot_operator.Ingress.Annotations.{get_matching_annotations, parse_bool}
use uptime_robot_operator.Ingress.Values.{
  Ingress, Decoding, Updated, updated, refused, panics, remaining, update_values,
}

-- the world of the reconciler; `monitors` lists the Monitors of all namespaces
pub record IngressCluster (W : Type 0) : Type 0 where
  pub get : W → Result Ingress × W
  pub update : Ingress → W → Option Failure × W
  pub monitors : W → Result (List Monitor) × W
  pub create_monitor : Monitor → W → Option Failure × W
  pub update_monitor : Monitor → W → Option Failure × W
  pub delete_monitor : Monitor → W → Option Failure × W
  -- Recorder.Event with the type Warning and the reason Sync
  pub warn : String → W → W
  pub contains_finalizer : Ingress → String → Bool
  pub add_finalizer : Ingress → String → Ingress
  pub remove_finalizer : Ingress → String → Ingress
  pub decoding : Decoding
  -- the error text of strconv.ParseBool, and a Monitor all of whose fields have their zero values
  pub parse_error : String → String
  pub zero_monitor : Monitor

-- the entry of the index "spec.sourceRef"
unfoldable pub source_index : Option SourceRef → List String
source_index none = []
source_index (some r) = concat (r.kind ∷ "/" ∷ r.name ∷ []) ∷ []

abbrev pub indexed_by : String → List String → Bool
indexed_by key [] = false
indexed_by key (k ∷ more) = same_text k key

abbrev pub source_key : Ingress → String
source_key i = concat (i.kind ∷ "/" ∷ i.name ∷ [])

-- the Monitors of a list whose index entry is a key
unfoldable pub with_source : String → List Monitor → List Monitor
unfolding source_index keep
with_source key ms = keep (λ m. indexed_by key (source_index m.spec.source_ref)) ms

abbrev pub done : Ending
done = requeue_after (pos 0)

module _ {W : Type 0} (k : IngressCluster W) where
  -- `if err := ...; err != nil { return ctrl.Result{}, err }`
  abbrev pub and_then : Option Failure × W → (W → Ending × W) → Ending × W
  and_then (none, w) f = f w
  and_then (some e, w) f = (failed e, w)

  abbrev pub found_in : Ingress → Result (List Monitor) × W → Result (List Monitor) × W
  found_in i (ok all, w) = (ok (with_source (source_key i) all), w)
  found_in i (err e, w) = (err e, w)

  -- findMonitors: the list is not restricted to a namespace
  unfoldable pub find_monitors : Ingress → W → Result (List Monitor) × W
  unfolding with_source
  find_monitors i w = found_in i (k.monitors w)

  abbrev pub before : Option Failure × W → (W → Option Failure × W) → Option Failure × W
  before (none, w) f = f w
  before (some e, w) f = (some e, w)

  unfoldable pub delete_monitors : List Monitor → W → Option Failure × W
  delete_monitors [] w = (none, w)
  delete_monitors (m ∷ more) w = before (k.delete_monitor m w) (delete_monitors more)

  -- the Monitors are deleted, and then the finalizer is taken off, where there is one
  unfoldable pub release : Ingress → List Monitor → W → Ending × W
  unfolding delete_monitors
  release i list w =
      let released =
        and_then (delete_monitors list w)
          (λ v. and_then (k.update (k.remove_finalizer i finalizer_name) v) (λ u. (done, u))) in
      if k.contains_finalizer i finalizer_name then released else (done, w)

  -- the Monitor of an Ingress that has none
  unfoldable pub new_monitor : Ingress → Monitor
  new_monitor i =
      let m = k.zero_monitor in
      record m {
        name = i.name;
        namespace = i.namespace;
        spec = record m.spec { source_ref = some (record { kind = i.kind; name = i.name }) };
      }

  -- what a loop comes to: it ends the reconcile, or not
  abbrev pub going_on : Option Failure × W → (W → Option Ending × W) → Option Ending × W
  going_on (none, w) f = f w
  going_on (some e, w) f = (some (failed e), w)

  abbrev pub store_monitor : Bool → Monitor → W → Option Failure × W
  store_monitor create m w = if create then k.create_monitor m w else k.update_monitor m w

  abbrev pub stored : Bool → Monitor → Updated → W → (W → Option Ending × W) → Option Ending × W
  stored create m (updated spec) w rest =
      going_on (store_monitor create (record m { spec = spec }) w) rest
  stored create m (refused e) w rest = (some (failed e), k.warn e.message w)
  stored create m panics w rest = (some panicked, w)

  -- The loop over the Monitors: the map of annotations is one for all of them, so that the second is
  -- given what the first has left of it.
  unfoldable pub save_monitors : Bool → Ingress → Annotations → List Monitor → W → Option Ending × W
  save_monitors create i a [] w = (none, w)
  save_monitors create i a (m ∷ more) w =
      stored create m (update_values k.decoding i m.spec a) w
        (save_monitors create i (remaining a) more)

  unfoldable pub attach : Ingress → W → Ending × W
  attach i w =
      let added = and_then (k.update (k.add_finalizer i finalizer_name) w) (λ u. (done, u)) in
      if k.contains_finalizer i finalizer_name then (done, w) else added

  abbrev pub ended_or : Option Ending × W → (W → Ending × W) → Ending × W
  ended_or (none, w) f = f w
  ended_or (some e, w) f = (e, w)

  -- an Ingress that is enabled
  unfoldable pub keep_ingress : Ingress → Annotations → List Monitor → W → Ending × W
  unfolding save_monitors new_monitor attach
  keep_ingress i a [] w = ended_or (save_monitors true i a (new_monitor i ∷ []) w) (attach i)
  keep_ingress i a (m ∷ more) w = ended_or (save_monitors false i a (m ∷ more) w) (attach i)

  -- the annotation "enabled": none counts as false, and a text that is no Boolean is an error
  unfoldable pub read_enabled : Option String → Result Bool
  unfolding parse_bool
  read_enabled none = ok false
  read_enabled (some v) = elim (parse_bool v) [
    | some b ↦ ok b
    | none ↦ err (failure (k.parse_error v) [])
  ]

  abbrev pub by_enabled : Ingress → Annotations → List Monitor → W → Result Bool → Ending × W
  by_enabled i a list w (ok true) = keep_ingress i a list w
  by_enabled i a list w (ok false) = release i list w
  by_enabled i a list w (err e) = (failed e, w)

  unfoldable pub reconcile_found : Ingress → Result (List Monitor) × W → Ending × W
  unfolding get_matching_annotations read_enabled
  reconcile_found i (err e, w) = (failed e, w)
  reconcile_found i (ok list, w) =
      let a = get_matching_annotations i.annotations in
      let gone = release i list w in
      let live = by_enabled i a list w (read_enabled (lookup "enabled" a)) in
      if i.is_deleting then gone else live

  abbrev pub reconcile_got : Result Ingress × W → Ending × W
  reconcile_got (err e, w) = (ignore_not_found e, w)
  reconcile_got (ok i, w) = reconcile_found i (find_monitors i w)

  -- Reconcile
  unfoldable pub reconcile_ingress : W → Ending × W
  unfolding find_monitors reconcile_found
  reconcile_ingress w = reconcile_got (k.get w)
