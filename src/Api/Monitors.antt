-- ===== src/Api/Monitors.antt =====
-- internal/uptimerobot/client.go: GetMonitor, FindMonitorID, DeleteMonitor, PauseMonitor and
-- StartMonitor.
pub mod Laws
use uptime_robot_operator.Prelude.{
  String, Bool, ◌&&◌, Option, none, some, List, [], ◌∷◌, if◌then◌else◌,
}
use uptime_robot_operator.Text.{contains, concat, is_blank}
use uptime_robot_operator.Strconv.{itoa}
use uptime_robot_operator.Failure.{Failure, Result, ok, err, is, err_status, err_monitor_not_found}
use uptime_robot_operator.Duplicate.{MonitorResponse, not_found}
use uptime_robot_operator.Api.Transport.{
  decode_page, Transport, Request, Page, no_body, new_request, exchange, then_do, do_json,
}

-- An error whose message has "404" in it becomes ErrMonitorNotFound.
unfoldable pub or_not_found : {W : Type 0} → Result MonitorResponse × W → Result MonitorResponse × W
or_not_found (ok m, w) = (ok m, w)
or_not_found (err e, w) = (if contains e.message "404" then not_found else err e, w)

-- GetMonitor
unfoldable pub get_monitor : {W : Type 0} → Transport W → String → W → Result MonitorResponse × W
get_monitor t id w =
    or_not_found (do_json t "GET" (concat ("monitors/" ∷ id ∷ [])) no_body t.decode_monitor w)

-- the query of FindByID with one id
unfoldable pub find_by_id : {W : Type 0} → Transport W → String → String
find_by_id t id = concat ("ids=" ∷ t.query_escape id ∷ [])

first_id : List MonitorResponse → Result String
first_id [] = not_found
first_id (m ∷ ms) = ok (itoa m.id)

-- FindMonitorID, with the query of its options
unfoldable pub find_monitor_id : {W : Type 0} → Transport W → String → W → Result String × W
unfolding first_id
find_monitor_id t query w =
    let endpoint = if is_blank query then "monitors" else concat ("monitors?" ∷ query ∷ []) in
    then_do (do_json t "GET" endpoint no_body (decode_page t) w)
      (λ page v. (first_id page.monitors, v))

-- the deletion failed: the monitor may be gone all the same
unfoldable pub unless_gone : {W : Type 0} → Failure → Result String × W → Option Failure × W
unless_gone e (ok id, w) = (some e, w)
unless_gone e (err f, w) = (if is f err_monitor_not_found then none else some e, w)

unfoldable pub deleted :
    {W : Type 0} → Transport W → String → Result String × W → Option Failure × W
deleted t id (ok body, w) = (none, w)
deleted t id (err e, w) =
    let search = unless_gone e (find_monitor_id t (find_by_id t id) w) in
    if is e err_status && contains e.message "404" then (none, w) else search

unfoldable pub delete_with :
    {W : Type 0} → Transport W → String → Result Request → W → Option Failure × W
delete_with t id (err e) w = (some e, w)
delete_with t id (ok r) w = deleted t id (t.perform r w)

-- DeleteMonitor
unfoldable pub delete_monitor : {W : Type 0} → Transport W → String → W → Option Failure × W
delete_monitor t id w =
    delete_with t id (new_request t "DELETE" (concat ("monitors/" ∷ id ∷ [])) no_body) w

-- the error of a call whose answer is not read
unfoldable pub error_of {ℓ} : {W : Type 0} {A : Type ℓ} → Result A × W → Option Failure × W
error_of (ok a, w) = (none, w)
error_of (err e, w) = (some e, w)

-- PauseMonitor
unfoldable pub pause_monitor : {W : Type 0} → Transport W → String → W → Option Failure × W
pause_monitor t id w =
    error_of
      (do_json t "POST" (concat ("monitors/" ∷ id ∷ "/pause" ∷ [])) no_body (λ body. ok body) w)

-- StartMonitor
unfoldable pub start_monitor : {W : Type 0} → Transport W → String → W → Option Failure × W
start_monitor t id w =
    error_of
      (do_json t "POST" (concat ("monitors/" ∷ id ∷ "/start" ∷ [])) no_body (λ body. ok body) w)
