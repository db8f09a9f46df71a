-- ===== src/Reconcile/Publish.antt =====
-- internal/controller/monitor_controller.go: the target that the URL of a heartbeat monitor is published
-- to, and the cleanup of the target before.
pub mod Object
pub mod Laws
pub mod WriteLaws
pub mod ForeignLaws
use uptime_robot_operator.Prelude.{
  String, Bool, true, false, ◌&&◌, ◌||◌, not, Option, none, some, List, [], ◌∷◌, same_text,
  if◌then◌else◌,
}
use uptime_robot_operator.Text.{trim_space, concat, is_blank}
use uptime_robot_operator.Failure.{Failure, Result, ok, err, failure, wrap, is, api_not_found}
use uptime_robot_operator.Urtypes.{same_type, type_heartbeat}
use uptime_robot_operator.Heartbeat.{normalize_heartbeat_base_url, build_heartbeat_url}
use uptime_robot_operator.Finalizer.Annotations.{lookup, insert}
use uptime_robot_operator.Monitor.Resource.{Monitor, MonitorStatus, HeartbeatUrlPublish}
use uptime_robot_operator.Reconcile.Session.{
  Cluster, Session, Store, Published, Action, Exit, continues, exits,
}
use uptime_robot_operator.Reconcile.Status.{update_monitor_status}
use uptime_robot_operator.Reconcile.Publish.Object.{reconcile_heartbeat_url, delete_owned}

abbrev pub type_secret : String
type_secret = "Secret"

abbrev pub type_config_map : String
type_config_map = "ConfigMap"

module _ {W : Type 0} (k : Cluster W) where
  -- cleanupHeartbeatURLPublishTargetObject
  unfoldable pub cleanup_target_object : String → String → W → Option Failure × W
  cleanup_target_object type name w =
      let secret = delete_owned k.secrets (k.secrets.get name w) in
      let config_map = delete_owned k.config_maps (k.config_maps.get name w) in
      if same_text type type_secret
      then secret
      else if same_text type type_config_map
      then config_map
      else (none, w)

  -- what is done after a call that has no error
  abbrev pub if_done :
      Session W
      → Option Failure × W
      → (Session W → Option Failure × Session W)
      → Option Failure × Session W
  if_done s (some e, w) next = (some e, record s { world = w })
  if_done s (none, w) next = next (record s { world = w })

  abbrev pub set_target : String → String → String → Session W → Session W
  set_target type name key s = record s {
    monitor = record s.monitor {
      status = record s.monitor.status {
        publish_target_type = type;
        publish_target_name = name;
        publish_target_key = key;
      };
    };
  }

  -- cleanupHeartbeatURLPublishTarget
  unfoldable pub cleanup_publish_target : Session W → Option Failure × Session W
  cleanup_publish_target s =
      let type = s.monitor.status.publish_target_type in
      let name = trim_space s.monitor.status.publish_target_name in
      let forget : Session W → Option Failure × Session W =
        λ r. update_monitor_status k (set_target "" "" "" r) in
      let clean = if_done s (cleanup_target_object type name s.world) forget in
      let keep = forget s in
      if is_blank type && is_blank name && is_blank s.monitor.status.publish_target_key
      then (none, s)
      else if not (is_blank name)
      then clean
      else keep

  abbrev pub or_default : String → String → String
  or_default given default = if is_blank given then default else given

  abbrev pub reconcile_heartbeat_url_secret :
      Monitor → String → String → String → String → W → Option Failure × W
  reconcile_heartbeat_url_secret m = reconcile_heartbeat_url "Secret" k.secrets m

  abbrev pub reconcile_heartbeat_url_config_map :
      Monitor → String → String → String → String → W → Option Failure × W
  reconcile_heartbeat_url_config_map m = reconcile_heartbeat_url "ConfigMap" k.config_maps m

  -- the write to the target
  unfoldable pub write_target :
      String → String → String → String → String → Monitor → W → Option Failure × W
  write_target type name key previous url m w =
      let config_map = reconcile_heartbeat_url_config_map m name key previous url w in
      let secret = reconcile_heartbeat_url_secret m name key previous url w in
      let unsupported : Failure =
        failure (concat ("unsupported heartbeatURLPublish type \"" ∷ type ∷ "\"" ∷ [])) [] in
      if same_text type type_config_map
      then config_map
      else if same_text type type_secret
      then secret
      else (some unsupported, w)

  -- the status names the new target
  unfoldable pub record_target : String → String → String → Session W → Option Failure × Session W
  record_target type name key s =
      let changed = update_monitor_status k (set_target type name key s) in
      if same_text s.monitor.status.publish_target_type type
        && same_text s.monitor.status.publish_target_name name
        && same_text s.monitor.status.publish_target_key key
      then (none, s)
      else changed

  -- the target that the specification names, with its defaults
  unfoldable pub publish_to_target :
      String → HeartbeatUrlPublish → Session W → Option Failure × Session W
  unfolding write_target record_target
  publish_to_target url p s =
      let type = or_default p.type type_secret in
      let name = or_default p.name (concat (s.monitor.name ∷ "-heartbeat-url" ∷ [])) in
      let key = or_default p.key "heartbeatURL" in
      let old_type = s.monitor.status.publish_target_type in
      let old_name = trim_space s.monitor.status.publish_target_name in
      let old_key = trim_space s.monitor.status.publish_target_key in
      let write : Session W → Option Failure × Session W = λ r.
        if_done r (write_target type name key old_key url r.monitor r.world)
          (record_target type name key) in
      let replace = if_done s (cleanup_target_object old_type old_name s.world) write in
      let direct = write s in
      if (not (same_text old_type type) || not (same_text old_name name)) && not (is_blank old_name)
      then replace
      else direct

  abbrev pub publish_if :
      Bool → String → Option HeartbeatUrlPublish → Session W → Option Failure × Session W
  publish_if false url p s = cleanup_publish_target s
  publish_if true url none s = cleanup_publish_target s
  publish_if true url (some p) s = publish_to_target url p s

  -- reconcileHeartbeatURLPublishTarget
  unfoldable pub reconcile_publish_target : Session W → Option Failure × Session W
  unfolding publish_to_target cleanup_publish_target
  reconcile_publish_target s =
      let m = s.monitor in
      let url =
        build_heartbeat_url (normalize_heartbeat_base_url k.heartbeat_base_url) m.status.id
          m.status.heartbeat_url in
      publish_if (same_type m.spec.monitor.type type_heartbeat && not (is_blank url)) url
        m.spec.heartbeat_url_publish s
