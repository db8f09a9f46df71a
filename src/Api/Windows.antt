-- ===== src/Api/Windows.antt =====
-- internal/uptimerobot/client.go: the calls for maintenance windows.
use uptime_robot_operator.Prelude.{String, Option, List, [], ◌∷◌}
use uptime_robot_operator.Text.{concat}
use uptime_robot_operator.Failure.{Failure, Result, ok}
use uptime_robot_operator.Api.Wire.{
  CreateMaintenanceWindowRequest, UpdateMaintenanceWindowRequest, MaintenanceWindowResponse,
}
use uptime_robot_operator.Api.Transport.{
  Transport, no_body, create_window_body, update_window_body, then_do, do_json,
}
use uptime_robot_operator.Api.Codec.{Codec, delete_at}

abbrev pub window_endpoint : String → String
window_endpoint id = concat ("maintenance-windows/" ∷ id ∷ [])

module _ {W : Type 0} (t : Transport W) (codec : Codec) where
  -- CreateMaintenanceWindow
  unfoldable pub create_maintenance_window :
      CreateMaintenanceWindowRequest → W → Result MaintenanceWindowResponse × W
  create_maintenance_window req =
      do_json t "POST" "maintenance-windows" (create_window_body req) codec.window

  -- GetMaintenanceWindow
  unfoldable pub get_maintenance_window : String → W → Result MaintenanceWindowResponse × W
  get_maintenance_window id = do_json t "GET" (window_endpoint id) no_body codec.window

  -- UpdateMaintenanceWindow
  unfoldable pub update_maintenance_window :
      String → UpdateMaintenanceWindowRequest → W → Result MaintenanceWindowResponse × W
  update_maintenance_window id req =
      do_json t "PATCH" (window_endpoint id) (update_window_body req) codec.window

  -- ListMaintenanceWindows: the first page
  unfoldable pub list_maintenance_windows : W → Result (List MaintenanceWindowResponse) × W
  list_maintenance_windows w =
      then_do (do_json t "GET" "maintenance-windows" no_body codec.windows w)
        (λ page v. (ok page.maintenance_windows, v))

-- DeleteMaintenanceWindow
unfoldable pub delete_maintenance_window :
    {W : Type 0} → Transport W → String → W → Option Failure × W
delete_maintenance_window t id = delete_at t (window_endpoint id)
