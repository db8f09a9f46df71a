-- ===== src/Api/Transport.antt =====
-- internal/uptimerobot/client.go: newRequest, do, doJSON and doGetJSON. What is outside the
-- repository is a record of functions: the network with the retries of doWithRetry in front of it,
-- the JSON codec, and the checks of http.NewRequest.
use uptime_robot_operator.Prelude.{
  String, Option, none, some, List, [], ◌∷◌, leb, length, not, if◌then◌else◌,
}
use uptime_robot_operator.Prelude.Int.{ℤ}
use uptime_robot_operator.Text.{concat, trim_slash, is_blank}
use uptime_robot_operator.Failure.{Failure, Result, ok, err}
use uptime_robot_operator.Request.Payload.{CreateMonitorRequest, UpdateMonitorRequest}
use uptime_robot_operator.Duplicate.{MonitorResponse}
use uptime_robot_operator.Api.Wire.{
  CreateSlackIntegrationRequest, CreateMaintenanceWindowRequest, UpdateMaintenanceWindowRequest,
  GroupCreationWireFormat, GroupUpdateWireFormat,
}

-- what a request carries
pub data Body : Type 0 where
  no_body : Body
  create_body : CreateMonitorRequest → Body
  update_body : UpdateMonitorRequest → Body
  create_slack_body : CreateSlackIntegrationRequest → Body
  create_window_body : CreateMaintenanceWindowRequest → Body
  update_window_body : UpdateMaintenanceWindowRequest → Body
  create_group_body : GroupCreationWireFormat → Body
  update_group_body : GroupUpdateWireFormat → Body

pub record Request : Type 0 where
  pub method : String
  pub url : String
  pub body : Body

-- MonitorsListResponse
pub record Page : Type 0 where
  pub monitors : List MonitorResponse
  pub next_link : Option String

-- what MonitorsListResponse.UnmarshalJSON reads: a key that is missing has no monitors
pub record RawPage : Type 0 where
  pub entries : List MonitorResponse
  pub monitors : List MonitorResponse
  pub next_link : Option String

-- the monitors are those under "data", where there are any
abbrev pub page_of : RawPage → Page
page_of raw = record {
  monitors = if leb 1 (length raw.entries) then raw.entries else raw.monitors;
  next_link = raw.next_link;
}

abbrev pub unmarshalled : Result RawPage → Result Page
unmarshalled (ok raw) = ok (page_of raw)
unmarshalled (err e) = err e

-- the fields that MonitorCreateResponse and MonitorUpdateResponse are read for
pub record Saved : Type 0 where
  pub id : ℤ
  pub url : String

-- `W` is the state of the world outside.
pub record Transport (W : Type 0) : Type 0 where
  pub base_url : String
  -- the error of json.Marshal or http.NewRequestWithContext, where there is one
  pub refusal : Request → Option Failure
  -- doWithRetry, and the body of the response
  pub perform : Request → W → Result String × W
  pub decode_monitor : String → Result MonitorResponse
  pub decode_raw_page : String → Result RawPage
  pub decode_saved : String → Result Saved
  -- the top-level `id` of a JSON object, and the `id` of its `data` and of its `monitor`
  pub decode_id : String → Option ℤ
  pub decode_nested : String → Option (Option ℤ × Option ℤ)
  -- url.QueryEscape
  pub query_escape : String → String
  -- two seconds, or the error of the context where it is done before
  pub wait : W → Option Failure × W

-- MonitorsListResponse.UnmarshalJSON
abbrev pub decode_page : {W : Type 0} → Transport W → String → Result Page
decode_page t s = unmarshalled (t.decode_raw_page s)

-- NewClient: the base URL, by the environment variable UPTIME_ROBOT_API
unfoldable pub client_url : String → String
client_url env = if not (is_blank env) then trim_slash env else "https://api.uptimerobot.com/v3"

-- what follows a call that may fail
unfoldable pub then_do {ℓ m} :
    {W : Type 0} {A : Type ℓ} {B : Type m} → Result A × W → (A → W → Result B × W) → Result B × W
then_do (ok a, w) f = f a w
then_do (err e, w) f = (err e, w)

unfoldable pub checked : Request → Option Failure → Result Request
checked r none = ok r
checked r (some e) = err e

-- newRequest
unfoldable pub new_request : {W : Type 0} → Transport W → String → String → Body → Result Request
unfolding checked
new_request t method endpoint body =
    let r : Request = record {
      method = method;
      url = concat (t.base_url ∷ "/" ∷ endpoint ∷ []);
      body = body;
    } in
    checked r (t.refusal r)

-- do, and the decoding of what it answers
unfoldable pub exchange {ℓ} :
    {W : Type 0} {A : Type ℓ}
    → Transport W
    → (String → Result A)
    → Result Request
    → W
    → Result A × W
unfolding then_do
exchange t decode request w =
    then_do (request, w) (λ r v. then_do (t.perform r v) (λ body u. (decode body, u)))

-- doJSON
unfoldable pub do_json {ℓ} :
    {W : Type 0} {A : Type ℓ}
    → Transport W
    → String
    → String
    → Body
    → (String → Result A)
    → W
    → Result A × W
do_json t method endpoint body decode w = exchange t decode (new_request t method endpoint body) w

-- doGetJSON
unfoldable pub do_get_json {ℓ} :
    {W : Type 0} {A : Type ℓ} → Transport W → String → (String → Result A) → W → Result A × W
do_get_json t full_url decode w =
    let r : Request = record { method = "GET"; url = full_url; body = no_body } in
    exchange t decode (checked r (t.refusal r)) w
