-- ===== src/Tests/DeletionTests.antt =====
-- Tests of the model of internal/controller/monitor_controller.go: a deletion, a conflict, the contacts
-- and the published URL.
use uptime_robot_operator.Prelude.{
  ap, sym, ◌≡◌, refl, String, Bool, true, false, ◌||◌, none, List, [], ◌∷◌, same_text,
  if◌then◌else◌,
}
use uptime_robot_operator.Prelude.Int.{pos}
use uptime_robot_operator.Text.{is_blank}
use uptime_robot_operator.Failure.{Failure, Result, ok, err, failure, is, api_conflict}
use uptime_robot_operator.Conditions.{set_condition, condition_true, type_deleting}
use uptime_robot_operator.Finalizer.Annotations.{lookup, insert}
use uptime_robot_operator.Finalizer.Cleanup.{
  Handled, handle_finalizer_cleanup, is_skipped, skipped, reason_cleanup_skipped,
  cleanup_start_time_annotation,
}
use uptime_robot_operator.Finalizer.Cleanup.Outcome.{returned}
use uptime_robot_operator.Finalizer.Tracking.{initialize_cleanup_tracking, try_track, write}
use uptime_robot_operator.Monitor.{MonitorContact}
use uptime_robot_operator.Monitor.Resource.{Monitor, MonitorContactRef}
use uptime_robot_operator.Reconcile.Session.{
  Store, Cluster, Session, continues, exits, requeue_after, onward, call, proceed,
}
use uptime_robot_operator.Reconcile.Status.{update_monitor_status, save}
use uptime_robot_operator.Reconcile.Adopters.{cleanup_monitor}
use uptime_robot_operator.Reconcile.Deletion.{
  finalizer_name, track, reload, options, reconcile_deletion,
}
use uptime_robot_operator.Reconcile.Deletion.Laws.{with_conditions, reconcile_deletion_end}
use uptime_robot_operator.Reconcile.Access.{get_contact}
use uptime_robot_operator.Reconcile.Steps.{resolve_contacts, value_or}
use uptime_robot_operator.Reconcile.Publish.{reconcile_publish_target}
use uptime_robot_operator.Reconcile.Publish.Object.{
  needs_update, update_published, publish_to, reconcile_heartbeat_url,
}
use uptime_robot_operator.Reconcile.Publish.WriteLaws.{
  Publication, reconcile_heartbeat_url-Publication,
}
use uptime_robot_operator.Reconcile.Publish.ForeignLaws.{
  Change, Agree, other, publish_spares_foreign,
}
use uptime_robot_operator.Tests.ReconcileTests.{
  stored, calm, at_start, answering, cluster_with, stores, no_store,
}

abbrev outdated : Session Monitor
outdated = record { monitor = record stored { resource_version = "0" }; world = stored }

abbrev conflicting : Failure
conflicting = failure "conflict" (api_conflict ∷ [])

-- a write of a status is refused at another version
abbrev at_version : Monitor → Monitor → Result Monitor × Monitor
at_version m w =
    if same_text m.resource_version w.resource_version then (ok m, m) else (err conflicting, w)

abbrev versioned : Cluster Monitor
versioned = cluster_with [] stores at_version

is_refused : at_version outdated.monitor stored ≡ (err conflicting, stored)
unfolding same_text
is_refused = refl

is_conflict : is conflicting api_conflict ≡ true
unfolding is
is_conflict = refl

is_taken :
    at_version (record stored { status = outdated.monitor.status }) stored ≡ (ok stored, stored)
unfolding same_text
is_taken = refl

abbrev skipped_message : String
skipped_message = "Cleanup skipped due to skip-cleanup annotation"

abbrev skipped_handled : Handled
skipped_handled = record {
  result = record {
    success = true;
    force_remove = true;
    requeue_after = pos 0;
    message = skipped_message;
  };
  error = none;
  conditions =
      set_condition type_deleting condition_true reason_cleanup_skipped skipped_message (pos 2)
        (pos 0) [];
  events =
      record { kind = "Warning"; reason = reason_cleanup_skipped; message = skipped_message } ∷ [];
}

abbrev tracking : Session Monitor
tracking = record {
  monitor = record stored {
    annotations =
        insert cleanup_start_time_annotation "t0" (("uptimerobot.com/skip-cleanup", "true") ∷ []);
  };
  world = stored;
}

abbrev written : Monitor
written = with_conditions calm answering stored skipped_handled.conditions

is_contained : calm.contains_finalizer stored finalizer_name ≡ true
unfolding same_text
is_contained = refl

is_tracked : track calm at_start ≡ (continues tt, tracking)
unfolding track initialize_cleanup_tracking try_track write lookup same_text
is_tracked = refl

is_reloaded : reload calm tracking ≡ (continues tt, at_start)
unfolding reload
is_reloaded = refl

is_handled :
    handle_finalizer_cleanup calm.time
      (calm.clock stored)
      (options calm stored)
      (cleanup_monitor calm answering stored)
      stored
    ≡ (returned skipped_handled, stored)
unfolding handle_finalizer_cleanup is_skipped skipped lookup same_text
is_handled = refl

is_saved :
    save calm (record { monitor = written; world = stored })
    ≡ (continues tt, record { monitor = written; world = written })
unfolding save update_monitor_status
is_saved = refl

reconcile_deletion_end_example : reconcile_deletion calm answering at_start ≡ (
    if skipped_handled.result.success || skipped_handled.result.force_remove
    then (
      exits (requeue_after (pos 0)),
      record {
        monitor = calm.remove_finalizer written finalizer_name;
        world = calm.remove_finalizer written finalizer_name;
      },
    )
    else (exits (requeue_after (pos 0)), record { monitor = written; world = written }))
reconcile_deletion_end_example =
    reconcile_deletion_end calm answering at_start tracking at_start
      (record { monitor = written; world = written }) is_contained is_tracked is_reloaded is_handled
      is_saved refl

abbrev refs : List MonitorContactRef
refs = record { name = "team"; common = record { threshold = pos 0; recurrence = pos 0 } } ∷ []

abbrev team : List MonitorContact
team = record { id = "5"; common = record { threshold = pos 0; recurrence = pos 0 } } ∷ []

team_found : resolve_contacts calm refs at_start ≡ (continues team, at_start)
unfolding resolve_contacts onward call value_or get_contact proceed same_text
team_found = refl

url_is_solid : is_blank "https://h/m7-x" ≡ false
unfolding same_text
url_is_solid = refl

-- one object, which the Monitor controls; the world is its entries
abbrev owned : Store (List (String × String))
owned = record {
  get = λ name w.
      (ok (record { name = name; namespace = "default"; is_controlled = true; entries = w }), w);
  own = λ o. none;
  create = λ o w. (none, o.entries);
  update = λ o w. (none, o.entries);
  delete = λ o w. (none, []);
}

abbrev before : List (String × String)
before = ("old", "https://h") ∷ []

abbrev after : List (String × String)
after = (reconcile_heartbeat_url "Secret" owned stored "n" "url" "old" "https://h/m7-x" before).1

reconcile_heartbeat_url-Publication_example :
    Publication "Secret" owned stored "n" "url" "old" "https://h/m7-x" before after
unfolding reconcile_heartbeat_url publish_to update_published needs_update lookup same_text
reconcile_heartbeat_url-Publication_example =
    reconcile_heartbeat_url-Publication "Secret" owned stored "n" "url" "old" "https://h/m7-x"
      before after url_is_solid refl

-- a write that goes wrong where the Monitor does not control the object
abbrev loses : Change Monitor
loses o w = (none, if o.is_controlled then w else record w { name = "lost" })

spared : Agree no_store.update loses
spared o w c = ap (λ (b : Bool). (none, if b then w else record w { name = "lost" })) (sym c)

publish_spares_foreign_example :
    reconcile_publish_target calm at_start
    ≡ reconcile_publish_target
        (other calm loses loses loses loses spared spared spared spared)
        at_start
publish_spares_foreign_example =
    publish_spares_foreign calm loses loses loses loses spared spared spared spared at_start
