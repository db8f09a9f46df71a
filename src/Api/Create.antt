-- ===== src/Api/Create.antt =====
-- internal/uptimerobot/client.go: CreateMonitor and EditMonitor. `none` is a run that still follows
-- the links of the list of monitors.
pub mod Laws
pub mod EditLaws
use uptime_robot_operator.Prelude.{
  ℕ, zero, suc, String, Bool, true, false, ◌&&◌, ◌||◌, not, Option, none, some, List, [], ◌∷◌,
  if◌then◌else◌,
}
use uptime_robot_operator.Prelude.Int.{ℤ, pos, ltb_ℤ}
use uptime_robot_operator.Text.{contains, concat, has_prefix, is_blank}
use uptime_robot_operator.Strconv.{itoa}
use uptime_robot_operator.Failure.{Failure, Result, ok, err, is, err_status, err_monitor_not_found}
use uptime_robot_operator.Monitor.{MonitorValues, MonitorContact}
use uptime_robot_operator.Request.Payload.{CreateMonitorRequest, UpdateMonitorRequest}
use uptime_robot_operator.Request.Build.{build_create_monitor_request, build_update_monitor_request}
use uptime_robot_operator.Duplicate.{MonitorResponse, select_duplicate_monitor_candidate}
use uptime_robot_operator.Api.Transport.{
  Transport, Request, Saved, create_body, update_body, new_request, do_json, then_do,
}
use uptime_robot_operator.Api.Listing.{list_all_monitors, Listed}
use uptime_robot_operator.Api.Monitors.{get_monitor}

-- CreateMonitorResult and EditMonitorResult
pub record MonitorResult : Type 0 where
  pub id : String
  pub url : String

-- how a run ends: it returns, it is still following links, or it dereferences a nil interval or timeout
pub data Created (W : Type 0) : Type 0 where
  returned : Result MonitorResult → W → Created W
  unfinished : Created W
  panicked : Created W

-- s[n:]
drop : ℕ → String → String
drop zero s = s
drop (suc n) String.[] = ""
drop (suc n) (String.◌∷◌ c s) = drop n s

-- extractErrStatusBody: what follows the first " - " of the message. Where there is none the code has
-- no bytes, which no JSON value has either.
unfoldable pub after_dash : String → String
unfolding has_prefix drop
after_dash String.[] = ""
after_dash (String.◌∷◌ c s) =
    let later = after_dash s in
    if has_prefix (String.◌∷◌ c s) " - " then drop 3 (String.◌∷◌ c s) else later

-- an id above 0, as a text
unfoldable pub positive_id : Option ℤ → String
positive_id none = ""
positive_id (some n) = if ltb_ℤ (pos 0) n then itoa n else ""

or_else : String → String → String
or_else s t = if is_blank s then t else s

nested_id : Option (Option ℤ × Option ℤ) → String
nested_id none = ""
nested_id (some (data_id, monitor_id)) = or_else (positive_id data_id) (positive_id monitor_id)

-- parseMonitorIDFrom409Body
unfoldable pub parse_monitor_id_from_409_body : {W : Type 0} → Transport W → String → String
unfolding or_else nested_id
parse_monitor_id_from_409_body t body =
    or_else (positive_id (t.decode_id body)) (nested_id (t.decode_nested body))

-- The monitor that the answer names; its URL is known where it can be read.
unfoldable pub adopted : {W : Type 0} → String → Result MonitorResponse × W → Created W
adopted id (ok m, w) = returned (ok (record { id = id; url = m.url })) w
adopted id (err e, w) = returned (ok (record { id = id; url = "" })) w

unfoldable pub candidate : {W : Type 0} → Option MonitorResponse → W → (W → Created W) → Created W
candidate none w otherwise = otherwise w
candidate (some m) w otherwise = returned (ok (record { id = itoa m.id; url = m.url })) w

-- tryFind on a list, with what follows where it finds nothing
unfoldable pub found : {W : Type 0} → MonitorValues → Listed W → (W → Created W) → Created W
found monitor none otherwise = unfinished
found monitor (some (err e, w)) otherwise = otherwise w
found monitor (some (ok all, w)) otherwise =
    candidate (select_duplicate_monitor_candidate all monitor) w otherwise

-- the pause between two searches
unfoldable pub waited : {W : Type 0} → Option Failure × W → (W → Created W) → Created W
waited (some e, w) after = returned (err e) w
waited (none, w) after = after w

-- the two searches of the list
unfoldable pub search_duplicate :
    {W : Type 0} → Transport W → ℕ → MonitorValues → Failure → W → Created W
search_duplicate t fuel monitor e w = found monitor (list_all_monitors t fuel w) (λ v.
    waited (t.wait v) (λ u. found monitor (list_all_monitors t fuel u) (λ x. returned (err e) x)))

-- a 409 answer
unfoldable pub conflict :
    {W : Type 0} → Transport W → ℕ → MonitorValues → Failure → String → W → Created W
conflict t fuel monitor e id w =
    let named = adopted id (get_monitor t id w) in
    let search = search_duplicate t fuel monitor e w in if not (is_blank id) then named else search

abbrev pub is_conflict : Failure → Bool
is_conflict e = is e err_status && contains e.message "409 Conflict"

unfoldable pub saved : {W : Type 0} → Result Saved → W → Created W
saved (err e) w = returned (err e) w
saved (ok s) w = returned (ok (record { id = itoa s.id; url = s.url })) w

-- the answer to the POST
unfoldable pub posted :
    {W : Type 0} → Transport W → ℕ → MonitorValues → Result String × W → Created W
posted t fuel monitor (ok body, w) = saved (t.decode_saved body) w
posted t fuel monitor (err e, w) =
    let adopt =
      conflict t fuel monitor e (parse_monitor_id_from_409_body t (after_dash e.message)) w in
    if is_conflict e then adopt else returned (err e) w

unfoldable pub create_with :
    {W : Type 0} → Transport W → ℕ → MonitorValues → Option (Result Request) → W → Created W
create_with t fuel monitor none w = panicked
create_with t fuel monitor (some (err e)) w = returned (err e) w
create_with t fuel monitor (some (ok r)) w = posted t fuel monitor (t.perform r w)

post_request : {W : Type 0} → Transport W → Option CreateMonitorRequest → Option (Result Request)
post_request t none = none
post_request t (some r) = some (new_request t "POST" "monitors" (create_body r))

-- CreateMonitor
unfoldable pub create_monitor :
    {W : Type 0} → Transport W → ℕ → MonitorValues → List MonitorContact → W → Created W
unfolding post_request
create_monitor t fuel monitor contacts w =
    create_with t fuel monitor (post_request t (build_create_monitor_request monitor contacts)) w

-- the monitor that could not be changed: it is created again where it is gone
unfoldable pub edit_failed :
    {W : Type 0} → Failure → Result MonitorResponse × W → (W → Created W) → Created W
edit_failed e (ok m, w) create = returned (err e) w
edit_failed e (err f, w) create =
    let created = create w in if is f err_monitor_not_found then created else returned (err e) w

unfoldable pub edited :
    {W : Type 0}
    → Transport W
    → ℕ
    → String
    → MonitorValues
    → List MonitorContact
    → Result Saved × W
    → Created W
edited t fuel id monitor contacts (ok s, w) = saved (ok s) w
edited t fuel id monitor contacts (err e, w) =
    edit_failed e (get_monitor t id w) (create_monitor t fuel monitor contacts)

edit_with :
    {W : Type 0}
    → Transport W
    → ℕ
    → String
    → MonitorValues
    → List MonitorContact
    → Option UpdateMonitorRequest
    → W
    → Created W
edit_with t fuel id monitor contacts none w = panicked
edit_with t fuel id monitor contacts (some r) w =
    edited t fuel id monitor contacts
      (do_json t "PATCH" (concat ("monitors/" ∷ id ∷ [])) (update_body r) t.decode_saved w)

-- EditMonitor. The id that comes with an error is not read by its callers, and is left out.
unfoldable pub edit_monitor :
    {W : Type 0} → Transport W → ℕ → String → MonitorValues → List MonitorContact → W → Created W
unfolding edit_with
edit_monitor t fuel id monitor contacts w =
    edit_with t fuel id monitor contacts (build_update_monitor_request monitor contacts) w
