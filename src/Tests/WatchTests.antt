-- ===== src/Tests/WatchTests.antt =====
-- Tests of the model of the watches of internal/controller.
use mathlib.Core.List.{Memᴰ}
use uptime_robot_operator.Prelude.{◌≡◌, ◌≢◌, [], ◌∷◌, refl, ◌↔◌, same_text, keep}
use uptime_robot_operator.Failure.{ok}
use uptime_robot_operator.Windows.Resource.{MaintenanceWindow}
use uptime_robot_operator.Controller.Watches.{request_for, window_requests}
use uptime_robot_operator.Controller.Watches.Laws.{window_requests_members}
use uptime_robot_operator.Tests.ReconcileTests.{stored}
use uptime_robot_operator.Tests.WindowTests.{going}

-- a window that refers to the monitor, by an empty name too
abbrev window : MaintenanceWindow
window = record going {
  namespace = stored.namespace;
  spec = record going.spec { monitor_refs = "" ∷ stored.name ∷ [] };
}

-- the same in another namespace
abbrev elsewhere : MaintenanceWindow
elsewhere = record window { namespace = "elsewhere" }

asked_for : window_requests stored (ok (elsewhere ∷ window ∷ [])) ≡ request_for window ∷ []
unfolding window_requests keep same_text
asked_for = refl

window_requests_members_example :
    Memᴰ (request_for window) (window_requests stored (ok (elsewhere ∷ window ∷ []))) ↔ (
      (w : MaintenanceWindow) × Memᴰ w (elsewhere ∷ window ∷ [])
      × (w.namespace ≡ stored.namespace)
      × (Memᴰ stored.name w.spec.monitor_refs × (stored.name ≢ ""))
      × (request_for window ≡ request_for w))
window_requests_members_example =
    window_requests_members stored (elsewhere ∷ window ∷ []) (request_for window)
