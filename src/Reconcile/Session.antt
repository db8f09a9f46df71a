-- ===== src/Reconcile/Session.antt =====
-- internal/controller/monitor_controller.go: what a reconcile runs on. The Kubernetes client, the
-- clock and the UptimeRobot API are a record of functions on the state of the world; an action
-- works on the world and on the Monitor that the reconciler holds, and may end the reconcile.
use uptime_robot_operator.Prelude.{ℕ, String, Bool, Option, none, some, List}
use uptime_robot_operator.Prelude.Int.{ℤ}
use uptime_robot_operator.Failure.{Failure, Result}
use uptime_robot_operator.Finalizer.Annotations.{TimeFormat}
use uptime_robot_operator.Finalizer.Tracking.{Client, Retry}
use uptime_robot_operator.Monitor.Resource.{Monitor}
use uptime_robot_operator.Api.Transport.{Transport}

-- a Secret or a ConfigMap, and whether the Monitor at hand controls it
pub record Published : Type 0 where
  pub name : String
  pub namespace : String
  pub is_controlled : Bool
  pub entries : List (String × String)

-- the Kubernetes client on one kind of object that URLs are published in
pub record Store (W : Type 0) : Type 0 where
  pub get : String → W → Result Published × W
  -- SetControllerReference, and the creation
  pub own : Published → Option Failure
  pub create : Published → W → Option Failure × W
  pub update : Published → W → Option Failure × W
  pub delete : Published → W → Option Failure × W

-- An Account and a Contact, as far as the reconciler reads them.
pub record Account : Type 0 where
  pub secret_name : String
  pub secret_key : String

pub record Contact : Type 0 where
  pub status_id : String

-- how every reconciler reads its credentials
pub record Accounts (W : Type 0) : Type 0 where
  pub get_account : String → W → Result Account × W
  pub list_default_accounts : W → Result (List Account) × W
  -- the data of a Secret, by its namespace and name
  pub get_secret : String → String → W → Result (List (String × String)) × W

-- the world that the reconciler of one Monitor works on
pub record Cluster (W : Type 0) : Type 0 where
  pub accounts : Accounts W
  pub open accounts use *
  pub get : W → Result Monitor × W
  pub update : Monitor → W → Result Monitor × W
  pub update_status : Monitor → W → Result Monitor × W
  pub list : String → W → Result (List Monitor) × W
  pub get_contact : String → W → Result Contact × W
  pub list_default_contacts : W → Result (List Contact) × W
  pub secrets : Store W
  pub config_maps : Store W
  -- the metadata of the Monitor alone, and retry.RetryOnConflict
  pub meta : Client W
  pub retry : Retry W
  -- readings of the clock from a state of the world on
  pub clock : W → ℕ → ℤ
  pub time : TimeFormat
  -- controllerutil: ContainsFinalizer, AddFinalizer and RemoveFinalizer
  pub contains_finalizer : Monitor → String → Bool
  pub add_finalizer : Monitor → String → Monitor
  pub remove_finalizer : Monitor → String → Monitor
  pub has_recorder : Bool
  -- NewClient
  pub api : String → Transport W
  -- the links that a listing of monitors may follow
  pub fuel : ℕ
  -- the environment variable UPTIMEROBOT_HEARTBEAT_BASE_URL
  pub heartbeat_base_url : String

pub record Session (W : Type 0) : Type 0 where
  pub monitor : Monitor
  pub world : W

-- how a reconcile ends: a result with the time to the next, an error, a panic, or a listing that
-- is still following links
pub data Ending : Type 0 where
  requeue_after : ℤ → Ending
  failed : Failure → Ending
  panicked : Ending
  unfinished : Ending

pub data Exit (A : Type 0) : Type 0 where
  continues : A → Exit A
  exits : Ending → Exit A

abbrev pub Action : Type 0 → Type 0 → Type 0
Action W A = Session W → Exit A × Session W

unfoldable pub onward :
    {W A B : Type 0} → Exit A × Session W → (A → Action W B) → Exit B × Session W
onward (continues a, s) f = f a s
onward (exits e, s) f = (exits e, s)

infixl 5 ◌>>=◌ ◌>>◌
abbrev pub ◌>>=◌ : {W A B : Type 0} → Action W A → (A → Action W B) → Action W B
◌>>=◌ m f s = onward (m s) f

abbrev pub ◌>>◌ : {W B : Type 0} → Action W (Unit {0}) → Action W B → Action W B
◌>>◌ m k s = onward (m s) (λ _. k)

unfoldable pub exit : {W A : Type 0} → Ending → Action W A
exit e s = (exits e, s)

unfoldable pub proceed : {W A : Type 0} → A → Action W A
proceed a s = (continues a, s)

-- reads of what the reconciler holds
abbrev pub held : {W : Type 0} → Action W Monitor
held s = (continues s.monitor, s)

abbrev pub change : {W : Type 0} → (Monitor → Monitor) → Action W (Unit {0})
change f s = (continues tt, record s { monitor = f s.monitor })

in_world : {W A : Type 0} → Session W → A × W → Exit A × Session W
in_world s (a, w) = (continues a, record s { world = w })

-- a call that leaves the Monitor alone
unfoldable pub call : {W A : Type 0} → (W → A × W) → Action W A
unfolding in_world
call f s = in_world s (f s.world)

-- `if err != nil { return ctrl.Result{}, err }`
unfoldable pub give_up_on : {W : Type 0} → Option Failure → Action W (Unit {0})
give_up_on none s = (continues tt, s)
give_up_on (some e) s = (exits (failed e), s)
