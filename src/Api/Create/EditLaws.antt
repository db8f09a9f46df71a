-- ===== src/Api/Create/EditLaws.antt =====
-- When EditMonitor creates a monitor (internal/uptimerobot/client.go).
use uptime_robot_operator.Prelude.{◌≡◌, refl, ℕ, String, true, some, List, [], ◌∷◌, if◌then◌else◌}
use uptime_robot_operator.Text.{contains, concat}
use uptime_robot_operator.Failure.{Failure, Result, err, is, err_monitor_not_found}
use uptime_robot_operator.Monitor.{MonitorValues, MonitorContact}
use uptime_robot_operator.Request.Payload.{UpdateMonitorRequest}
use uptime_robot_operator.Request.Build.{build_update_monitor_request}
use uptime_robot_operator.Api.Transport.{Transport, Saved, no_body, update_body, do_json}
use uptime_robot_operator.Api.Monitors.{get_monitor}
use uptime_robot_operator.Api.Monitors.Laws.{get_monitor_id_404}
use uptime_robot_operator.Api.Create.{
  returned, create_monitor, edit_failed, edited, edit_with, edit_monitor,
}

-- the PATCH of EditMonitor
abbrev pub patch : {W : Type 0} → Transport W → String → UpdateMonitorRequest → W → Result Saved × W
patch t id body w =
    do_json t "PATCH" (concat ("monitors/" ∷ id ∷ [])) (update_body body) t.decode_saved w

-- Where the PATCH of EditMonitor fails, the GET of the monitor decides: where that says that the
-- monitor is not found, EditMonitor does what CreateMonitor does, else it returns the error of
-- the PATCH and creates nothing.
pub edit_monitor_failed :
    {W : Type 0} (t : Transport W) (fuel : ℕ) (id : String) (monitor : MonitorValues)
    (contacts : List MonitorContact) (w : W) {body : UpdateMonitorRequest} {e f : Failure} {v u : W}
    → build_update_monitor_request monitor contacts ≡ some body
    → patch t id body w ≡ (err e, v)
    → get_monitor t id v ≡ (err f, u)
    → edit_monitor t fuel id monitor contacts w ≡ (
        if is f err_monitor_not_found
        then create_monitor t fuel monitor contacts u
        else returned (err e) u)
unfolding edit_monitor edit_with edited edit_failed
edit_monitor_failed t fuel id monitor contacts w b p g = rw b (rw p (rw g refl))

-- EditMonitor creates a second monitor where the PATCH and the GET both fail, as on a broken
-- connection, with an error whose message names the id, and the id has the digits 404 in it.
pub edit_monitor_duplicates :
    {W : Type 0} (t : Transport W) (fuel : ℕ) (id : String) (monitor : MonitorValues)
    (contacts : List MonitorContact) (w : W) {body : UpdateMonitorRequest} {e f : Failure} {v u : W}
    (pre post : String)
    → build_update_monitor_request monitor contacts ≡ some body
    → patch t id body w ≡ (err e, v)
    → do_json t "GET" (concat ("monitors/" ∷ id ∷ [])) no_body t.decode_monitor v ≡ (err f, u)
    → f.message ≡ concat (pre ∷ id ∷ post ∷ [])
    → contains id "404" ≡ true
    → edit_monitor t fuel id monitor contacts w ≡ create_monitor t fuel monitor contacts u
unfolding is
edit_monitor_duplicates t fuel id monitor contacts w pre post b p g m h =
    edit_monitor_failed t fuel id monitor contacts w b p (get_monitor_id_404 t id _ pre post g m h)
