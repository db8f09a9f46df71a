-- ===== src/Api/Listing.antt =====
-- internal/uptimerobot/client.go: listAllMonitors follows the nextLink of each page. The loop runs on
-- fuel, one unit for each link; `none` is a run that goes on.
pub mod Laws
use uptime_robot_operator.Prelude.{
  ℕ, zero, suc, String, Option, none, some, List, [], ◌∷◌, ◌++◌, not, if◌then◌else◌,
}
use uptime_robot_operator.Text.{has_prefix, trim_slash, trim_leading_slash, concat, is_blank}
use uptime_robot_operator.Failure.{Result, ok, err}
use uptime_robot_operator.Duplicate.{MonitorResponse, normalize_url, find_by_url, find_by_name}
use uptime_robot_operator.Api.Transport.{
  decode_page, Transport, Page, no_body, do_json, do_get_json,
}

-- the link to follow, where there is one that is not empty
unfoldable pub link_of : Option String → Option String
link_of none = none
link_of (some u) = if is_blank u then none else some u

-- A link that is no URL is one of the API's own.
unfoldable pub next_url : String → String → String
next_url base u =
    if not (has_prefix u "http")
    then concat (trim_slash base ∷ "/" ∷ trim_leading_slash u ∷ [])
    else u

abbrev pub Listed : Type 0 → Type 0
Listed W = Option (Result (List MonitorResponse) × W)

-- what is done with a page that was asked for
unfoldable pub on_page : {W : Type 0} → Result Page × W → (Page → W → Listed W) → Listed W
on_page (ok page, w) f = f page w
on_page (err e, w) f = some (err e, w)

unfoldable pub on_link : {W : Type 0} → Option String → Listed W → (String → Listed W) → Listed W
on_link none finished more = finished
on_link (some u) finished more = more u

-- the loop, with the monitors so far and the page that came last
unfoldable pub follow : {W : Type 0} → Transport W → ℕ → List MonitorResponse → Page → W → Listed W
unfolding on_link
follow t zero all page w = on_link (link_of page.next_link) (some (ok all, w)) (λ u. none)
follow t (suc n) all page w = on_link (link_of page.next_link) (some (ok all, w)) (λ u.
    on_page (do_get_json t (next_url t.base_url u) (decode_page t) w)
      (λ next v. follow t n (all ++ next.monitors) next v))

-- listAllMonitors
unfoldable pub list_all_monitors : {W : Type 0} → Transport W → ℕ → W → Listed W
list_all_monitors t fuel w =
    on_page (do_json t "GET" "monitors" no_body (decode_page t) w)
      (λ page v. follow t fuel page.monitors page v)

-- what is done with a list that was asked for
unfoldable pub on_listed {ℓ} :
    {W : Type 0} {A : Type ℓ} → Listed W → (List MonitorResponse → Result A) → Option (Result A × W)
on_listed none f = none
on_listed (some (ok ms, w)) f = some (f ms, w)
on_listed (some (err e, w)) f = some (err e, w)

-- FindMonitorByURL
unfoldable pub find_monitor_by_url :
    {W : Type 0} → Transport W → ℕ → String → W → Option (Result String × W)
find_monitor_by_url t fuel url w =
    on_listed (list_all_monitors t fuel w) (find_by_url (normalize_url url))

-- FindMonitorByName
unfoldable pub find_monitor_by_name :
    {W : Type 0} → Transport W → ℕ → String → W → Option (Result MonitorResponse × W)
find_monitor_by_name t fuel name w = on_listed (list_all_monitors t fuel w) (find_by_name name)
