-- ===== src/Controller/Steps.antt =====
-- internal/controller: the steps that the reconcilers of maintenance windows, monitor groups and Slack
-- integrations share: the credentials, the finalizer, the monitors that are referred to, and the time
-- to the next reconcile.
pub mod Laws
use uptime_robot_operator.Prelude.{
  String, Bool, true, false, ◌||◌, not, Option, none, some, List, [], ◌∷◌, if◌then◌else◌,
}
use uptime_robot_operator.Prelude.Int.{ℤ}
use uptime_robot_operator.Text.{is_blank}
use uptime_robot_operator.Strconv.{atoi}
use uptime_robot_operator.Failure.{Failure, Result, ok, err}
use uptime_robot_operator.Conditions.{reason_reconcile_error, reason_secret_not_found}
use uptime_robot_operator.Monitor.Resource.{Monitor}
use uptime_robot_operator.Api.Transport.{Transport}
use uptime_robot_operator.Reconcile.Session.{Exit, Ending, continues, exits, requeue_after}
use uptime_robot_operator.Reconcile.Access.{get_account, get_api_key}
use uptime_robot_operator.Controller.Session.{
  Cluster, Session, Action, onward, exit, proceed, held, change, call, read_or, value_or, ◌>>=◌,
  ◌>>◌,
}
use uptime_robot_operator.Controller.Status.{Writer, write_object, try_write, without_credentials}

-- the id of a Monitor that is ready, where it is a number
unfoldable pub ready_id : Monitor → Option ℤ
ready_id m = if not m.status.ready || is_blank m.status.id then none else atoi m.status.id

abbrev pub id_of : Result Monitor → Option ℤ
id_of (ok m) = ready_id m
id_of (err e) = none

-- the next id of the list, where there is one
abbrev pub keep_id : Option ℤ → List ℤ → List ℤ
keep_id none ids = ids
keep_id (some id) ids = id ∷ ids

module _ {W Spec Extra : Type 0} (k : Cluster W Spec Extra) where
  module _ (put : Writer W Spec Extra) where
    -- GetAccount, GetApiKey and NewClient, with the branches of their errors
    unfoldable pub api_of_account : String → Action W Spec Extra (Transport W)
    api_of_account account = do
      a ←
          read_or (get_account k.accounts account)
            (without_credentials k put reason_reconcile_error "Failed to get account: ")
      key ←
          read_or (get_api_key k.accounts a)
            (without_credentials k put reason_secret_not_found "Failed to get API key: ")
      proceed (k.api key)

  -- the finalizer is put on before anything is created
  unfoldable pub attach_finalizer : String → Action W Spec Extra (Unit {0})
  attach_finalizer finalizer s =
      let added = (do change (λ o. k.add_finalizer o finalizer); try_write k (write_object k)) s in
      if k.contains_finalizer s.object finalizer then (continues tt, s) else added

  abbrev pub resolved_in : (W → List ℤ × W) → Result Monitor × W → List ℤ × W
  resolved_in rest (r, w) = let (ids, v) = rest w in (keep_id (id_of r) ids, v)

  -- the loop over the references to monitors: one that is blank, that is not found, that is not ready
  -- or whose id is no number is passed over
  unfoldable pub resolve_monitors : List String → W → List ℤ × W
  resolve_monitors [] w = ([], w)
  resolve_monitors (name ∷ names) w =
      let skip = resolve_monitors names w in
      let take = resolved_in (resolve_monitors names) (k.get_monitor name w) in
      if is_blank name then skip else take

-- `RequeueAfter: SyncInterval.Duration`, which panics where there is no interval
unfoldable pub requeue : {W Spec Extra A : Type 0} → Option ℤ → Action W Spec Extra A
requeue none s = (exits Ending.panicked, s)
requeue (some d) s = (exits (requeue_after d), s)
