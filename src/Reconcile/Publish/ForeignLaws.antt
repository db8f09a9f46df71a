-- ===== src/Reconcile/Publish/ForeignLaws.antt =====
-- Objects that a Monitor does not control, where its heartbeat URL is published
-- (internal/controller/monitor_controller.go).
use uptime_robot_operator.Prelude.{
  ◌≡◌, refl, sym, ap, ◌∙◌, String, Bool, true, false, ◌&&◌, ◌||◌, not, Option, none, some, [], ◌∷◌,
  inl, inr, Bool-cases, same_text, when_true, when_false, if◌then◌else◌,
}
use uptime_robot_operator.Text.{trim_space, concat, is_blank}
use uptime_robot_operator.Failure.{Failure, Result, ok, err, failure}
use uptime_robot_operator.Urtypes.{same_type, type_heartbeat}
use uptime_robot_operator.Heartbeat.{normalize_heartbeat_base_url, build_heartbeat_url}
use uptime_robot_operator.Monitor.Resource.{Monitor, HeartbeatUrlPublish}
use uptime_robot_operator.Reconcile.Session.{Cluster, Session, Store, Published}
use uptime_robot_operator.Reconcile.Status.{update_monitor_status}
use uptime_robot_operator.Reconcile.Publish.Object.{
  update_published, publish_to, create_published, reconcile_heartbeat_url, delete_owned,
  unless_missing, needs_update, with_url, without_previous, wrapped, message,
}
use uptime_robot_operator.Reconcile.Publish.{
  type_secret, type_config_map, set_target, or_default, cleanup_target_object,
  cleanup_publish_target, write_target, record_target, if_done, publish_to_target, publish_if,
  reconcile_publish_target,
}

-- a write or a deletion of an object
abbrev pub Change : Type 0 → Type 0
Change W = Published → W → Option Failure × W

-- Two changes agree on the objects that the Monitor controls.
abbrev pub Agree : {W : Type 0} → Change W → Change W → Type 0
Agree {W} f g = (o : Published) (w : W) → o.is_controlled ≡ true → f o w ≡ g o w

module _ {W : Type 0} (store : Store W) (update delete : Change W)
    (updates : Agree store.update update) (deletes : Agree store.delete delete) where
  abbrev pub other_store : Store W
  other_store = record store { update = update; delete = delete }

  pub same_delete : (p : Result Published × W) → delete_owned store p ≡ delete_owned other_store p
  same_delete (err e, w) = refl
  same_delete (ok o, w) = elim (Bool-cases o.is_controlled) [
    | inl c ↦
        ap (λ (x : Option Failure × W). if o.is_controlled then unless_missing x else (none, w))
          (deletes o w c)
    | inr c ↦ when_false _ _ _ c ∙ sym (when_false _ _ _ c)
  ]

  module _ (kind : String) (monitor : Monitor) (name key previous url : String) where
    same_update :
        (o : Published) (w : W)
        → update_published kind store monitor name key previous url o w
          ≡ update_published kind other_store monitor name key previous url o w
    unfolding update_published
    same_update o w = elim (Bool-cases o.is_controlled) [
      | inl c ↦
          let entries = without_previous key previous (with_url key url o.entries) in
          when_false _ _ _ (ap not c)
          ∙ ap
              (λ (x : Option Failure × W).
                if not (needs_update key previous url o.entries)
                then (none, w)
                else (wrapped (message kind store monitor "update" name) x.0, x.1))
              (updates (record o { entries = entries }) w c)
          ∙ sym (when_false _ _ _ (ap not c))
      | inr c ↦ when_true _ _ _ (ap not c) ∙ sym (when_true _ _ _ (ap not c))
    ]

    same_publish :
        (p : Result Published × W)
        → publish_to kind store monitor name key previous url p
          ≡ publish_to kind other_store monitor name key previous url p
    unfolding publish_to create_published
    same_publish (ok o, w) = same_update o w
    same_publish (err e, w) = refl

    pub same_reconcile :
        (w : W)
        → reconcile_heartbeat_url kind store monitor name key previous url w
          ≡ reconcile_heartbeat_url kind other_store monitor name key previous url w
    unfolding reconcile_heartbeat_url
    same_reconcile w = same_publish (store.get name w)

module _ {W : Type 0} (k : Cluster W) (su sd cu cd : Change W)
    (secret_updates : Agree (k.secrets.update) su) (secret_deletes : Agree (k.secrets.delete) sd)
    (map_updates : Agree (k.config_maps.update) cu)
    (map_deletes : Agree (k.config_maps.delete) cd) where
  -- the cluster with other writes and deletions
  abbrev pub other : Cluster W
  other = record k {
    secrets = record k.secrets { update = su; delete = sd };
    config_maps = record k.config_maps { update = cu; delete = cd };
  }

  same_cleanup :
      (type name : String) (w : W)
      → cleanup_target_object k type name w ≡ cleanup_target_object other type name w
  unfolding cleanup_target_object
  same_cleanup type name w =
      let secret =
        same_delete k.secrets su sd secret_updates secret_deletes (k.secrets.get name w) in
      let config_map =
        same_delete k.config_maps cu cd map_updates map_deletes (k.config_maps.get name w) in
      λ i.
        if same_text type type_secret
        then secret i
        else if same_text type type_config_map
        then config_map i
        else (none, w)

  same_write :
      (type name key previous url : String) (m : Monitor) (w : W)
      → write_target k type name key previous url m w
        ≡ write_target other type name key previous url m w
  unfolding write_target
  same_write type name key previous url m w =
      let secret =
        same_reconcile k.secrets su sd secret_updates secret_deletes "Secret" m name key previous
          url w in
      let config_map =
        same_reconcile k.config_maps cu cd map_updates map_deletes "ConfigMap" m name key previous
          url w in
      let unsupported : Failure =
        failure (concat ("unsupported heartbeatURLPublish type \"" ∷ type ∷ "\"" ∷ [])) [] in
      λ i.
        if same_text type type_config_map
        then config_map i
        else if same_text type type_secret
        then secret i
        else (some unsupported, w)

  same_forget : (s : Session W) → cleanup_publish_target k s ≡ cleanup_publish_target other s
  unfolding cleanup_publish_target update_monitor_status
  same_forget s =
      let type = s.monitor.status.publish_target_type in
      let name = trim_space s.monitor.status.publish_target_name in
      let cleanup = same_cleanup type name s.world in
      let forget : Session W → Option Failure × Session W =
        λ r. update_monitor_status k (set_target k "" "" "" r) in
      λ i.
        if is_blank type && is_blank name && is_blank s.monitor.status.publish_target_key
        then (none, s)
        else if not (is_blank name)
        then if_done k s (cleanup i) forget
        else forget s

  same_target :
      (url : String) (p : HeartbeatUrlPublish) (s : Session W)
      → publish_to_target k url p s ≡ publish_to_target other url p s
  unfolding publish_to_target record_target update_monitor_status
  same_target url p s =
      let type = or_default k p.type type_secret in
      let name = or_default k p.name (concat (s.monitor.name ∷ "-heartbeat-url" ∷ [])) in
      let key = or_default k p.key "heartbeatURL" in
      let old_type = s.monitor.status.publish_target_type in
      let old_name = trim_space s.monitor.status.publish_target_name in
      let old_key = trim_space s.monitor.status.publish_target_key in
      let cleanup = same_cleanup old_type old_name s.world in
      λ i.
        let write : Session W → Option Failure × Session W = λ r.
          if_done k r (same_write type name key old_key url r.monitor r.world i)
            (record_target k type name key) in
        if (not (same_text old_type type) || not (same_text old_name name))
          && not (is_blank old_name)
        then if_done k s (cleanup i) write
        else write s

  same_choice :
      (b : Bool) (url : String) (p : Option HeartbeatUrlPublish) (s : Session W)
      → publish_if k b url p s ≡ publish_if other b url p s
  same_choice false url p s = same_forget s
  same_choice true url none s = same_forget s
  same_choice true url (some p) s = same_target url p s

  -- An object that the Monitor does not control is neither written nor deleted, whatever the target and the
  -- target before are: publishing a heartbeat URL comes to the same, in its error, its world and the
  -- Monitor, where the writes and the deletions of such objects are replaced by any others.
  pub publish_spares_foreign :
      (s : Session W) → reconcile_publish_target k s ≡ reconcile_publish_target other s
  unfolding reconcile_publish_target
  publish_spares_foreign s =
      let m = s.monitor in
      let url =
        build_heartbeat_url (normalize_heartbeat_base_url k.heartbeat_base_url) m.status.id
          m.status.heartbeat_url in
      same_choice (same_type m.spec.monitor.type type_heartbeat && not (is_blank url)) url
        m.spec.heartbeat_url_publish s
