-- ===== src/Reconcile/Adopters.antt =====
-- internal/controller/monitor_controller.go: the cleanup function of a deletion, which leaves a
-- monitor of UptimeRobot alone that another resource has adopted.
pub mod Laws
use uptime_robot_operator.Prelude.{
  String, Bool, true, false, ◌&&◌, ◌||◌, not, Option, none, some, List, [], ◌∷◌, same_text,
  if◌then◌else◌,
}
use uptime_robot_operator.Text.{is_blank}
use uptime_robot_operator.Failure.{Failure, Result, ok, err}
use uptime_robot_operator.Finalizer.Annotations.{lookup}
use uptime_robot_operator.Monitor.Resource.{Monitor}
use uptime_robot_operator.Api.Transport.{Transport}
use uptime_robot_operator.Api.Monitors.{delete_monitor}
use uptime_robot_operator.Reconcile.Session.{Cluster}

abbrev pub adopt_id_annotation : String
adopt_id_annotation = "uptimerobot.com/adopt-id"

-- annotations[key] is there and is the text
abbrev pub has_text : String → Option String → Bool
has_text s none = false
has_text s (some t) = same_text t s

-- isAdopter
unfoldable pub is_adopter : String → Monitor → Bool
is_adopter id other =
    has_text id (lookup adopt_id_annotation other.annotations)
    || (other.status.ready && same_text other.status.id id)

-- the resources that the loop does not skip
unfoldable pub is_considered : Monitor → Monitor → Bool
is_considered monitor other =
    if same_text other.uid monitor.uid
    then false
    else if other.is_deleting
    then false
    else same_text other.spec.account monitor.spec.account

-- the loop over the resources of the namespace
unfoldable pub is_adopted : Monitor → List Monitor → Bool
unfolding is_considered is_adopter
is_adopted monitor [] = false
is_adopted monitor (other ∷ others) =
    let rest = is_adopted monitor others in
    if is_considered monitor other && is_adopter monitor.status.id other then true else rest

module _ {W : Type 0} (k : Cluster W) (t : Transport W) (monitor : Monitor) where
  unfoldable pub unless_adopted : Result (List Monitor) × W → Option Failure × W
  unless_adopted (err e, w) = (some e, w)
  unless_adopted (ok all, w) =
      let deletion = delete_monitor t monitor.status.id w in
      if is_adopted monitor all then (none, w) else deletion

  -- cleanupFunc
  unfoldable pub cleanup_monitor : W → Option Failure × W
  unfolding unless_adopted
  cleanup_monitor w =
      let deletion = delete_monitor t monitor.status.id w in
      let checked = unless_adopted (k.list monitor.namespace w) in
      if not monitor.spec.prune || not monitor.status.ready
      then (none, w)
      else if not (is_blank monitor.status.id)
      then checked
      else deletion
