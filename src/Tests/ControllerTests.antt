-- ===== src/Tests/ControllerTests.antt =====
-- Tests of the steps that the models of the controllers share (internal/controller). The world counts the
-- writes and the requests.
use mathlib.Core.List.{Memᴰ}
use Prim.Native.Nat.{ℕ, suc}
use uptime_robot_operator.Prelude.{
  ◌≡◌, refl, ◌↔◌, String, Bool, true, false, ◌||◌, none, some, List, [], ◌∷◌, same_text,
}
use uptime_robot_operator.Prelude.Int.{pos}
use uptime_robot_operator.Strconv.{atoi}
use uptime_robot_operator.Failure.{Result, ok, err, failure}
use uptime_robot_operator.Api.Transport.{Transport}
use uptime_robot_operator.Api.Wire.{
  IntegrationResponse, MaintenanceWindowResponse, GroupWireFormat, AlertContactResponse,
}
use uptime_robot_operator.Api.Codec.{Codec}
use uptime_robot_operator.Controller.Session.{Object, Cluster}
use uptime_robot_operator.Controller.Steps.{resolve_monitors, ready_id}
use uptime_robot_operator.Controller.Steps.Laws.{Leads, resolve_monitors_members}
use uptime_robot_operator.Tests.DuplicateTests.{listed}
use uptime_robot_operator.Tests.FinalizerTests.{times}
use uptime_robot_operator.Tests.ReconcileTests.{stored}

-- every request is answered alike
abbrev pub counting : Result String → Transport ℕ
counting answer = record {
  base_url = "https://api";
  refusal = λ r. none;
  perform = λ r n. (answer, suc n);
  decode_monitor = λ s. ok (listed s "");
  decode_raw_page = λ s. ok (record { entries = []; monitors = []; next_link = none });
  decode_saved = λ s. ok (record { id = pos 7; url = s });
  decode_id = λ s. none;
  decode_nested = λ s. none;
  query_escape = λ s. s;
  wait = λ n. (none, n);
}

abbrev pub window_seven : MaintenanceWindowResponse
window_seven = record {
  id = pos 7;
  user_id = pos 1;
  name = "night";
  auto_add_monitors = false;
  interval = "daily";
  date = "";
  time = "02:00:00";
  duration = pos 30;
  days = [];
  monitor_ids = pos 5 ∷ [];
  status = "active";
  created = "";
}

abbrev pub group_seven : GroupWireFormat
group_seven = record {
  id = pos 7;
  name = "all";
  created_at = none;
  updated_at = none;
  monitor_ids = [];
}

abbrev pub slack_seven : IntegrationResponse
slack_seven = record {
  id = pos 7;
  friendly_name = some "ops";
  enable_notifications_for = some "UpAndDown";
  type = some "Slack";
  status = none;
  ssl_expiration_reminder = false;
  value = "https://hooks";
  custom_value = "";
  custom_value_2 = "";
  custom_value_3 = "";
  custom_value_4 = "";
}

abbrev pub mail_contact : AlertContactResponse
mail_contact = record {
  id = pos 9;
  friendly_name = some "mail";
  type = "email";
  status = "active";
  value = "a@b";
}

abbrev pub constant : Codec
constant = record {
  contacts = λ s. ok (mail_contact ∷ []);
  user = λ s. ok (record {
    email = "a@b";
    full_name = "";
    monitors_count = pos 0;
    monitor_limit = pos 50;
    sms_credits = pos 0;
  });
  integration = λ s. ok slack_seven;
  integrations = λ s. ok (record { next_link = none; integrations = slack_seven ∷ [] });
  window = λ s. ok window_seven;
  windows = λ s. ok (record { maintenance_windows = window_seven ∷ []; next_link = none });
  group = λ s. ok group_seven;
  groups = λ s. ok (record { groups = group_seven ∷ []; next_link = none });
}

abbrev holds : String → List String → Bool
holds f [] = false
holds f (g ∷ more) = same_text g f || holds f more

-- a resource with a status, and the world that holds it
abbrev pub resource :
    {Spec Extra : Type 0} → Bool → List String → Spec → Bool → String → Extra → Object Spec Extra
resource deleting finalizers spec ready id extra = record {
  name = "r";
  namespace = "default";
  generation = pos 2;
  is_deleting = deleting;
  annotations = ("uptimerobot.com/skip-cleanup", "true") ∷ [];
  resource_version = "1";
  finalizers = finalizers;
  spec = spec;
  status = record {
    ready = ready;
    id = id;
    conditions = [];
    observed_generation = pos 1;
    extra = extra;
  };
}

abbrev pub holding :
    {Spec Extra : Type 0}
    → Object Spec Extra
    → (Object Spec Extra → ℕ → Result (Object Spec Extra) × ℕ)
    → Result String
    → Cluster ℕ Spec Extra
holding o update_status answer = record {
  accounts = record {
    get_account = λ name n. (err (failure "no account" []), n);
    list_default_accounts = λ n. (ok (record { secret_name = "s"; secret_key = "k" } ∷ []), n);
    get_secret = λ namespace name n. (ok (("k", "key") ∷ []), n);
  };
  get = λ n. (ok o, n);
  update = λ x n. (ok x, suc n);
  update_status = update_status;
  get_monitor = λ name n. (ok stored, n);
  meta = record {
    get = λ n. (ok (record { annotations = o.annotations; resource_version = "1" }), n);
    update = λ m n. (ok m, n);
    now = λ n. pos 5;
  };
  retry = λ f s. f s;
  clock = λ n m. pos m;
  time = times;
  contains_finalizer = λ x f. holds f x.finalizers;
  add_finalizer = λ x f. record x { finalizers = f ∷ x.finalizers };
  remove_finalizer = λ x f. record x { finalizers = [] };
  has_recorder = true;
  api = λ key. counting answer;
  codec = constant;
}

-- the writes of the status that succeed
abbrev pub writes : {A : Type 0} → A → ℕ → Result A × ℕ
writes x n = (ok x, suc n)

abbrev small : Cluster ℕ (Unit {0}) (Unit {0})
small = holding (resource false [] tt false "" tt) writes (ok "")

resolve_monitors_members_example :
    Memᴰ (pos 7) (resolve_monitors small ("" ∷ "site" ∷ []) 0).0
    ↔ ((name : String) × Memᴰ name ("" ∷ "site" ∷ []) × Leads small 0 (pos 7) name)
resolve_monitors_members_example =
    resolve_monitors_members small (λ name n. refl) ("" ∷ "site" ∷ []) 0 (pos 7)

resolved_seven : (resolve_monitors small ("" ∷ "site" ∷ []) 0).0 ≡ pos 7 ∷ []
unfolding resolve_monitors ready_id atoi same_text
resolved_seven = refl
