-- ===== src/Controller/Session.antt =====
-- internal/controller: what a reconcile of a maintenance window, a monitor group or a Slack integration
-- runs on. The resource is an object with a specification and a status of its kind; the Kubernetes
-- client, the clock and the UptimeRobot API are a record of functions on the state of the world.
pub mod Laws
use uptime_robot_operator.Prelude.{ℕ, String, Bool, Option, none, some, List}
use uptime_robot_operator.Prelude.Int.{ℤ}
use uptime_robot_operator.Failure.{Failure, Result}
use uptime_robot_operator.Conditions.{Condition}
use uptime_robot_operator.Finalizer.Annotations.{Annotations, TimeFormat}
use uptime_robot_operator.Finalizer.Tracking.{Client, Retry}
use uptime_robot_operator.Monitor.Resource.{Monitor}
use uptime_robot_operator.Api.Transport.{Transport}
use uptime_robot_operator.Api.Codec.{Codec}
use uptime_robot_operator.Reconcile.Session.{Accounts, Exit, Ending, continues, exits, failed}

-- the fields that the three kinds of status share, and the others
pub record Status (Extra : Type 0) : Type 0 where
  pub ready : Bool
  pub id : String
  pub conditions : List Condition
  pub observed_generation : ℤ
  pub extra : Extra

-- a resource: the metadata that is read, its specification and its status
pub record Object (Spec Extra : Type 0) : Type 0 where
  pub name : String
  pub namespace : String
  pub generation : ℤ
  pub is_deleting : Bool
  pub annotations : Annotations
  pub resource_version : String
  pub finalizers : List String
  pub spec : Spec
  pub status : Status Extra

-- the world that the reconciler of one resource works on
pub record Cluster (W Spec Extra : Type 0) : Type 0 where
  pub accounts : Accounts W
  pub open accounts use *
  pub get : W → Result (Object Spec Extra) × W
  pub update : Object Spec Extra → W → Result (Object Spec Extra) × W
  pub update_status : Object Spec Extra → W → Result (Object Spec Extra) × W
  -- a Monitor in the namespace of the request
  pub get_monitor : String → W → Result Monitor × W
  -- the metadata of the resource alone, and retry.RetryOnConflict
  pub meta : Client W
  pub retry : Retry W
  -- readings of the clock from a state of the world on
  pub clock : W → ℕ → ℤ
  pub time : TimeFormat
  -- controllerutil: ContainsFinalizer, AddFinalizer and RemoveFinalizer
  pub contains_finalizer : Object Spec Extra → String → Bool
  pub add_finalizer : Object Spec Extra → String → Object Spec Extra
  pub remove_finalizer : Object Spec Extra → String → Object Spec Extra
  pub has_recorder : Bool
  -- NewClient
  pub api : String → Transport W
  pub codec : Codec

pub record Session (W Spec Extra : Type 0) : Type 0 where
  pub object : Object Spec Extra
  pub world : W

abbrev pub Action : Type 0 → Type 0 → Type 0 → Type 0 → Type 0
Action W Spec Extra A = Session W Spec Extra → Exit A × Session W Spec Extra

module _ {W Spec Extra : Type 0} where
  unfoldable pub onward :
      {A B : Type 0}
      → Exit A × Session W Spec Extra
      → (A → Action W Spec Extra B)
      → Exit B × Session W Spec Extra
  onward (continues a, s) f = f a s
  onward (exits e, s) f = (exits e, s)

  infixl 5 ◌>>=◌ ◌>>◌
  abbrev pub ◌>>=◌ :
      {A B : Type 0} → Action W Spec Extra A → (A → Action W Spec Extra B) → Action W Spec Extra B
  ◌>>=◌ m f s = onward (m s) f

  abbrev pub ◌>>◌ :
      {B : Type 0} → Action W Spec Extra (Unit {0}) → Action W Spec Extra B → Action W Spec Extra B
  ◌>>◌ m k s = onward (m s) (λ _. k)

  unfoldable pub exit : {A : Type 0} → Ending → Action W Spec Extra A
  exit e s = (exits e, s)

  unfoldable pub proceed : {A : Type 0} → A → Action W Spec Extra A
  proceed a s = (continues a, s)

  -- the resource at hand
  abbrev pub held : Action W Spec Extra (Object Spec Extra)
  held s = (continues s.object, s)

  abbrev pub change : (Object Spec Extra → Object Spec Extra) → Action W Spec Extra (Unit {0})
  change f s = (continues tt, record s { object = f s.object })

  unfoldable pub on_status : (Status Extra → Status Extra) → Action W Spec Extra (Unit {0})
  on_status f s =
      (continues tt, record s { object = record s.object { status = f s.object.status } })

  abbrev pub in_world : {A : Type 0} → Session W Spec Extra → A × W → Exit A × Session W Spec Extra
  in_world s (a, w) = (continues a, record s { world = w })

  -- a call that leaves the resource alone
  unfoldable pub call : {A : Type 0} → (W → A × W) → Action W Spec Extra A
  call f s = in_world s (f s.world)

  unfoldable pub value_or :
      {A : Type 0} → (Failure → Action W Spec Extra A) → Result A → Action W Spec Extra A
  value_or handler (Result.ok a) s = (continues a, s)
  value_or handler (Result.err e) s = handler e s

  -- a read whose error goes to its handler
  abbrev pub read_or :
      {A : Type 0} → (W → Result A × W) → (Failure → Action W Spec Extra A) → Action W Spec Extra A
  read_or f handler = do r ← call f; value_or handler r

  unfoldable pub give_up_on : Option Failure → Action W Spec Extra (Unit {0})
  give_up_on none s = (continues tt, s)
  give_up_on (some e) s = (exits (failed e), s)
