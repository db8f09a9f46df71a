-- ===== src/Duplicate/Laws.antt =====
-- Which monitor is adopted on a 409 answer (internal/uptimerobot/client.go).
use uptime_robot_operator.Prelude.{
  ◌≡◌, refl, String, ◌&&◌, ◌||◌, Option, none, some, List, [], ◌∷◌, arith, same_text, if◌then◌else◌,
  Bool-cases, inl, inr,
}
use uptime_robot_operator.Text.{trim_space, is_blank}
use uptime_robot_operator.Monitor.{MonitorValues}
use uptime_robot_operator.Duplicate.{
  MonitorResponse, normalize_url, is_match, scan, select_duplicate_monitor_candidate,
}

-- the monitors of a list with the wanted name, and the wanted URL where one is wanted
abbrev pub matching : String → String → List MonitorResponse → List MonitorResponse
matching name want_url [] = []
matching name want_url (m ∷ ms) =
    let rest = matching name want_url ms in
    if same_text (trim_space m.friendly_name) name
      && (is_blank want_url || same_text (normalize_url m.url) want_url)
    then m ∷ rest
    else rest

abbrev pub only : List MonitorResponse → Option MonitorResponse
only (m ∷ []) = some m
only _ = none

abbrev pub prepend : Option MonitorResponse → List MonitorResponse → List MonitorResponse
prepend none ms = ms
prepend (some x) ms = x ∷ ms

scan-only :
    (name want_url : String) (found : Option MonitorResponse) (ms : List MonitorResponse)
    → scan name want_url found ms ≡ only (prepend found (matching name want_url ms))
unfolding scan is_match
scan-only name want_url none [] = refl
scan-only name want_url (some x) [] = refl
scan-only name want_url none (m ∷ ms) =
    ground (arith, scan-only name want_url none ms, scan-only name want_url (some m) ms)
scan-only name want_url (some x) (m ∷ ms) =
    ground (arith, scan-only name want_url (some x) ms, scan-only name want_url (some m) ms)

-- The monitor selected for adoption is the only one of the list whose trimmed name is the wanted
-- name and, where a URL is wanted, whose URL is the same up to blanks and a trailing slash; none is
-- selected where there are no such monitors, or several, or where no name is wanted.
pub select_duplicate_monitor_candidate_unique :
    (existing : List MonitorResponse) (desired : MonitorValues)
    → select_duplicate_monitor_candidate existing desired ≡ (
        if is_blank (trim_space desired.name)
        then none
        else only (matching (trim_space desired.name) (normalize_url desired.url) existing))
unfolding select_duplicate_monitor_candidate
select_duplicate_monitor_candidate_unique existing desired =
    elim (Bool-cases (is_blank (trim_space desired.name))) [
      | inl e ↦ rw e
      | inr e ↦ rw e (scan-only (trim_space desired.name) (normalize_url desired.url) none existing)
    ]
