-- ===== src/Duplicate.antt =====
-- internal/uptimerobot/client.go: which existing monitor a 409 answer is about, and the searches
-- through the list of monitors.
pub mod Laws
use uptime_robot_operator.Prelude.{
  ℕ, String, Bool, true, false, ◌&&◌, ◌||◌, not, Option, none, some, List, [], ◌∷◌, same_text,
  if◌then◌else◌,
}
use uptime_robot_operator.Prelude.Int.{ℤ}
use uptime_robot_operator.Text.{trim_space, trim_slash, is_blank}
use uptime_robot_operator.Strconv.{itoa}
use uptime_robot_operator.Monitor.{MonitorValues}
use uptime_robot_operator.Failure.{Failure, Result, ok, err, failure, err_monitor_not_found}

-- the fields of MonitorResponse that the operator reads
pub record MonitorResponse : Type 0 where
  pub id : ℤ
  pub friendly_name : String
  pub url : String
  pub type : String
  pub status : String

-- normalizeURL
unfoldable pub normalize_url : String → String
normalize_url u = trim_slash (trim_space u)

-- a monitor that the loop does not skip
unfoldable pub is_match : String → String → MonitorResponse → Bool
is_match name want_url m =
    same_text (trim_space m.friendly_name) name
    && (is_blank want_url || same_text (normalize_url m.url) want_url)

-- The loop, with the match found so far: a second match ends it.
unfoldable pub scan :
    String → String → Option MonitorResponse → List MonitorResponse → Option MonitorResponse
scan name want_url found [] = found
scan name want_url found (m ∷ ms) =
    let first = scan name want_url (some m) ms in
    let on = scan name want_url found ms in
    if is_match name want_url m then elim found [ none ↦ first | some x ↦ none ] else on

-- selectDuplicateMonitorCandidate
unfoldable pub select_duplicate_monitor_candidate :
    List MonitorResponse → MonitorValues → Option MonitorResponse
unfolding scan
select_duplicate_monitor_candidate existing desired =
    let name = trim_space desired.name in
    if is_blank name then none else scan name (normalize_url desired.url) none existing

abbrev pub not_found {ℓ} : {A : Type ℓ} → Result A
not_found = err (failure "monitor not found" (err_monitor_not_found ∷ []))

-- the loop of FindMonitorByURL
unfoldable pub find_by_url : String → List MonitorResponse → Result String
find_by_url norm [] = not_found
find_by_url norm (m ∷ ms) =
    if same_text (normalize_url m.url) norm then ok (itoa m.id) else find_by_url norm ms

-- the loop of FindMonitorByName
unfoldable pub find_by_name : String → List MonitorResponse → Result MonitorResponse
find_by_name name [] = not_found
find_by_name name (m ∷ ms) = if same_text m.friendly_name name then ok m else find_by_name name ms
