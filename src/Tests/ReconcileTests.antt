-- ===== src/Tests/ReconcileTests.antt =====
-- Tests of the model of internal/controller/monitor_controller.go. The world is one stored Monitor,
-- beside another resource that has adopted its monitor.
use mathlib.Core.List.{Memᴰ}
use mathlib.Core.List.Memᴰ.{head}
use uptime_robot_operator.Prelude.{
  ◌≡◌, ◌⊎◌, refl, inl, true, false, not, none, some, List, [], ◌∷◌, same_text,
}
use uptime_robot_operator.Prelude.Int.{pos}
use uptime_robot_operator.Text.{is_blank}
use uptime_robot_operator.Failure.{Failure, Result, ok, err, failure}
use uptime_robot_operator.Urtypes.{type_keyword}
use uptime_robot_operator.Conditions.{condition_true, condition_false}
use uptime_robot_operator.Finalizer.Annotations.{lookup}
use uptime_robot_operator.Monitor.Resource.{Monitor}
use uptime_robot_operator.Api.Transport.{Transport}
use uptime_robot_operator.Reconcile.Session.{Cluster, Session, Store}
use uptime_robot_operator.Reconcile.Status.{save}
use uptime_robot_operator.Reconcile.Adopters.{adopt_id_annotation, cleanup_monitor}
use uptime_robot_operator.Reconcile.Adopters.Laws.{Adopts, cleanup_monitor_spares_adopted}
use uptime_robot_operator.Reconcile.Main.{succeed}
use uptime_robot_operator.Reconcile.Main.Laws.{GoesOn, Refused, with_api-Guarded}
use uptime_robot_operator.Reconcile.Main.ReportLaws.{Reads, succeed_reports}
use uptime_robot_operator.Tests.RequestTests.{site}
use uptime_robot_operator.Tests.DuplicateTests.{listed}
use uptime_robot_operator.Tests.FinalizerTests.{times}

abbrev pub stored : Monitor
stored = record {
  name = "site";
  namespace = "default";
  uid = "a";
  generation = pos 2;
  is_deleting = true;
  annotations = ("uptimerobot.com/skip-cleanup", "true") ∷ [];
  resource_version = "1";
  finalizers = [];
  spec = record {
    sync_interval = some (pos 60);
    prune = true;
    account = "";
    monitor = site;
    contacts = [];
    heartbeat_url_publish = none;
    source_ref = none;
  };
  status = record {
    ready = true;
    id = "7";
    heartbeat_url = "";
    publish_target_type = "";
    publish_target_name = "";
    publish_target_key = "";
    type = type_keyword;
    status = 1;
    state = "running";
    conditions = [];
    observed_generation = pos 1;
    last_synced_time = none;
  };
}

abbrev pub adopter : Monitor
adopter = record stored {
  uid = "b";
  is_deleting = false;
  annotations = (adopt_id_annotation, "7") ∷ [];
}

abbrev pub no_store : Store Monitor
no_store = record {
  get = λ name w.
      (ok (record { name = name; namespace = "default"; is_controlled = false; entries = [] }), w);
  own = λ o. none;
  create = λ o w. (none, w);
  update = λ o w. (none, w);
  delete = λ o w. (none, w);
}

abbrev pub answering : Transport Monitor
answering = record {
  base_url = "https://api";
  refusal = λ r. none;
  perform = λ r w. (ok "", w);
  decode_monitor = λ s. ok (listed s "");
  decode_raw_page = λ s. ok (record { entries = []; monitors = []; next_link = none });
  decode_saved = λ s. ok (record { id = pos 7; url = s });
  decode_id = λ s. none;
  decode_nested = λ s. none;
  query_escape = λ s. s;
  wait = λ w. (none, w);
}

-- The writes of the Monitor and of its status answer as they are told to.
abbrev pub cluster_with :
    List Monitor
    → (Monitor → Monitor → Result Monitor × Monitor)
    → (Monitor → Monitor → Result Monitor × Monitor)
    → Cluster Monitor
cluster_with all update update_status = record {
  get = λ w. (ok w, w);
  update = update;
  update_status = update_status;
  list = λ namespace w. (ok all, w);
  accounts = record {
    get_account = λ name w. (ok (record { secret_name = "s"; secret_key = "k" }), w);
    list_default_accounts = λ w. (ok [], w);
    get_secret = λ namespace name w. (ok [], w);
  };
  get_contact = λ name w. (ok (record { status_id = "5" }), w);
  list_default_contacts = λ w. (ok [], w);
  secrets = no_store;
  config_maps = no_store;
  meta = record {
    get = λ w. (ok (record { annotations = w.annotations; resource_version = "1" }), w);
    update = λ m w. (ok m, w);
    now = λ w. pos 5;
  };
  retry = λ f s. f s;
  clock = λ w n. pos n;
  time = times;
  contains_finalizer = λ m f. not (same_text m.uid "new");
  add_finalizer = λ m f. record m { finalizers = f ∷ [] };
  remove_finalizer = λ m f. record m { finalizers = [] };
  has_recorder = true;
  api = λ key. answering;
  fuel = 3;
  heartbeat_base_url = "";
}

abbrev pub stores : Monitor → Monitor → Result Monitor × Monitor
stores m w = (ok m, m)

abbrev pub calm : Cluster Monitor
calm = cluster_with (adopter ∷ []) stores stores

abbrev pub at_start : Session Monitor
at_start = record { monitor = stored; world = stored }

pub seven_is_id : is_blank "7" ≡ false
unfolding same_text
seven_is_id = refl

adopter-Adopts : Adopts stored adopter
adopter-Adopts =
    unfold lookup same_text in
    record { another = refl; live = refl; account = refl; claim = inl refl }

cleanup_monitor_spares_adopted_example :
    cleanup_monitor calm answering stored stored ≡ (none, stored)
cleanup_monitor_spares_adopted_example =
    cleanup_monitor_spares_adopted calm answering stored stored refl refl seven_is_id refl
      (head refl) adopter-Adopts

abbrev lonely : Cluster Monitor
lonely = cluster_with [] stores stores

nobody : (other : Monitor) → Memᴰ other [] → ¬ Adopts stored other
nobody other m a = elim m [ ]

succeed_reports_example :
    (m : Monitor) × (succeed calm at_start ≡ save calm (record at_start { monitor = m }))
    × Reads condition_true condition_true condition_false m.status.conditions
    × (m.status.last_synced_time ≡ some (pos 3))
    × (m.status.id ≡ "7")
succeed_reports_example = succeed_reports calm at_start

abbrev broken : Failure
broken = failure "broken" []

abbrev refuses : Monitor → Monitor → Result Monitor × Monitor
refuses m w = (err broken, w)

abbrev unguarded : Session Monitor
unguarded = record { monitor = record stored { uid = "new"; is_deleting = false }; world = stored }

with_api-Guarded_example :
    GoesOn (cluster_with [] refuses stores) unguarded
    ⊎ Refused (cluster_with [] refuses stores) unguarded
with_api-Guarded_example = with_api-Guarded (cluster_with [] refuses stores) unguarded refl
