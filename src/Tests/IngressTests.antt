-- ===== src/Tests/IngressTests.antt =====
-- Tests of the model of internal/controller/ingress_controller.go. The world is the list of the Monitors
-- that are there.
use mathlib.Core.List.{Memᴰ}
use Prim.Native.String.{◌++◌}
use uptime_robot_operator.Prelude.{
  ◌≡◌, refl, ◌↔◌, true, false, none, some, List, [], ◌∷◌, same_text,
}
use uptime_robot_operator.Text.{concat}
use uptime_robot_operator.Failure.{ok}
use uptime_robot_operator.Finalizer.Annotations.{Annotations, lookup}
use uptime_robot_operator.Monitor.Resource.{Monitor}
use uptime_robot_operator.Reconcile.Deletion.{finalizer_name}
use uptime_robot_operator.Ingress.Annotations.{ingress_annotation_prefix, get_matching_annotations}
use uptime_robot_operator.Ingress.Annotations.Laws.{lookup-get_matching_annotations}
use uptime_robot_operator.Ingress.Values.{
  Ingress, Decoding, remaining, set_name, decoded, update_values,
}
use uptime_robot_operator.Ingress.Values.Laws.{update_values_drops_url}
use uptime_robot_operator.Ingress.Main.{IngressCluster, find_monitors, delete_monitors, release}
use uptime_robot_operator.Ingress.Main.Laws.{
  IsSource, find_monitors_members, Deleted, release_deletes_all,
}
use uptime_robot_operator.Tests.ReconcileTests.{stored}

abbrev shop : Annotations
shop =
    ("uptimerobot.com/enabled", "true")
    ∷ ("kubernetes.io/x", "y")
    ∷ ("uptimerobot.com/monitor.url", "https://shop")
    ∷ []

lookup-get_matching_annotations_example :
    lookup "monitor.url" (get_matching_annotations shop)
    ≡ lookup (ingress_annotation_prefix ++ "monitor.url") shop
lookup-get_matching_annotations_example = lookup-get_matching_annotations "monitor.url" shop

abbrev web : Ingress
web = record {
  kind = "Ingress";
  name = "web";
  namespace = "default";
  is_deleting = false;
  annotations = shop;
  finalizers = finalizer_name ∷ [];
  rules = record { host = "shop"; http = none } ∷ [];
  tls = 1;
}

abbrev decoding : Decoding
decoding = record {
  url_string = λ u. concat (u.scheme ∷ "://" ∷ u.host ∷ u.path ∷ []);
  decode = λ a spec. ok spec;
}

abbrev with_url : Annotations
with_url = ("enabled", "true") ∷ ("monitor.url", "https://shop") ∷ []

update_values_drops_url_example :
    (update_values decoding web stored.spec with_url
      ≡ decoded decoding (decoding.decode (remaining with_url) (set_name "web" stored.spec)))
    × (lookup "monitor.url" (remaining with_url) ≡ none)
unfolding lookup same_text
update_values_drops_url_example =
    update_values_drops_url decoding web stored.spec with_url {u = "https://shop"} refl

-- a Monitor of an Ingress with the same name in another namespace
abbrev foreign : Monitor
foreign = record stored {
  namespace = "other";
  spec = record stored.spec { source_ref = some (record { kind = "Ingress"; name = "web" }) };
}

abbrev cluster : IngressCluster (List Monitor)
cluster = record {
  get = λ w. (ok web, w);
  update = λ i w. (none, w);
  monitors = λ w. (ok w, w);
  create_monitor = λ m w. (none, m ∷ w);
  update_monitor = λ m w. (none, w);
  delete_monitor = λ m w. (none, []);
  warn = λ s w. w;
  contains_finalizer = λ i f. true;
  add_finalizer = λ i f. i;
  remove_finalizer = λ i f. record i { finalizers = [] };
  decoding = decoding;
  parse_error = λ s. "invalid syntax";
  zero_monitor = stored;
}

find_monitors_members_example :
    (found : List Monitor) × (find_monitors cluster web (foreign ∷ []) ≡ (ok found, foreign ∷ []))
    × ((m : Monitor) → Memᴰ m found ↔ (Memᴰ m (foreign ∷ []) × IsSource web m))
find_monitors_members_example = find_monitors_members cluster web (foreign ∷ []) refl

release_deletes_all_example :
    (v : List Monitor) × Deleted cluster (foreign ∷ []) (foreign ∷ []) v
    × (cluster.update (cluster.remove_finalizer web finalizer_name) v ≡ (none, []))
unfolding release delete_monitors
release_deletes_all_example =
    release_deletes_all cluster web (foreign ∷ []) (foreign ∷ []) refl refl
