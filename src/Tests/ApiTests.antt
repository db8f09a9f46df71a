-- ===== src/Tests/ApiTests.antt =====
-- Tests of the model of the API calls of internal/uptimerobot/client.go.
use uptime_robot_operator.Prelude.{
  ◌↔◌, ◌≡◌, refl, ℕ, String, true, none, some, List, [], ◌∷◌, ◌++◌, leb, same_text, if◌then◌else◌,
}
use uptime_robot_operator.Prelude.Int.{pos}
use uptime_robot_operator.Text.{contains, concat, has_prefix, trim_slash}
use uptime_robot_operator.Failure.{Failure, Result, ok, err, failure}
use uptime_robot_operator.Duplicate.{not_found}
use uptime_robot_operator.Api.Transport.{
  client_url, decode_page, RawPage, page_of, Transport, Request, Page, no_body, new_request,
  do_json, do_get_json, exchange, then_do, checked,
}
use uptime_robot_operator.Api.Listing.{list_all_monitors, link_of, next_url}
use uptime_robot_operator.Api.Listing.Laws.{Pages, last, more, list_all_monitors_pages}
use uptime_robot_operator.Api.Monitors.{get_monitor, delete_monitor}
use uptime_robot_operator.Api.Monitors.Laws.{Gone, delete_monitor-Gone, get_monitor_id_404}
use uptime_robot_operator.Tests.DuplicateTests.{listed}

-- The answers still to come.
abbrev pub Script : Type 0
Script = List (Result String)

abbrev answer : Script → Result String × Script
answer [] = (err (failure "no more answers" []), [])
answer (a ∷ rest) = (a, rest)

-- the first page has its monitors under "data", the second under "monitors"
abbrev raw_page : String → RawPage
raw_page s =
    if same_text s "first"
    then record { entries = listed "other" "" ∷ []; monitors = []; next_link = some "?cursor=2" }
    else record {
      entries = [];
      monitors = listed "site" "https://example.com" ∷ [];
      next_link = none;
    }

abbrev page : String → Page
page s = page_of (raw_page s)

abbrev pub api : Transport Script
api = record {
  base_url = "https://api";
  refusal = λ r. none;
  perform = λ r w. answer w;
  decode_monitor = λ s. ok (listed s "");
  decode_raw_page = λ s. ok (raw_page s);
  decode_saved = λ s. ok (record { id = pos 9; url = s });
  decode_id = λ s. none;
  decode_nested = λ s. none;
  query_escape = λ s. s;
  wait = λ w. (none, w);
}

-- an API that hands out the first page for every link
abbrev circular : Transport ℕ
circular = record {
  base_url = "https://api";
  refusal = λ r. none;
  perform = λ r w. (ok "first", w);
  decode_monitor = λ s. ok (listed s "");
  decode_raw_page = λ s. ok (raw_page "first");
  decode_saved = λ s. ok (record { id = pos 9; url = s });
  decode_id = λ s. none;
  decode_nested = λ s. none;
  query_escape = λ s. s;
  wait = λ w. (none, w);
}

abbrev pub two_pages : Script
two_pages = ok "first" ∷ ok "second" ∷ []

first_page :
    do_json api "GET" "monitors" no_body (decode_page api) two_pages
    ≡ (ok (page "first"), ok "second" ∷ [])
unfolding do_json exchange new_request then_do checked
first_page = refl

second_link : link_of (page "first").next_link ≡ some "?cursor=2"
unfolding link_of same_text
second_link = refl

second_page :
    do_get_json api (next_url "https://api" "?cursor=2") (decode_page api) (ok "second" ∷ [])
    ≡ (ok (page "second"), [])
unfolding do_get_json exchange then_do checked
second_page = refl

no_third : link_of (page "second").next_link ≡ none
unfolding link_of same_text
no_third = refl

both :
    Pages api
      (page "first")
      (ok "second" ∷ [])
      ((page "first").monitors ++ (page "second").monitors)
      []
      1
both = more second_link second_page (last no_third)

list_all_monitors_pages_example : list_all_monitors api 1 two_pages ≡ (
    if leb 1 1 then some (ok ((page "first").monitors ++ (page "second").monitors), []) else none)
list_all_monitors_pages_example = list_all_monitors_pages api 1 two_pages first_page both

circular_first :
    do_json circular "GET" "monitors" no_body (decode_page circular) 0 ≡ (ok (page "first"), 0)
unfolding do_json exchange new_request then_do checked
circular_first = refl

circular_next :
    do_get_json circular (next_url "https://api" "?cursor=2") (decode_page circular) 0
    ≡ (ok (page "first"), 0)
unfolding do_get_json exchange then_do checked
circular_next = refl

abbrev delete_7 : Request
delete_7 = record { method = "DELETE"; url = "https://api/monitors/7"; body = no_body }

abbrev no_answer : Failure
no_answer = failure "connection reset" []

delete_7_made : new_request api "DELETE" (concat ("monitors/" ∷ "7" ∷ [])) no_body ≡ ok delete_7
unfolding new_request checked concat
delete_7_made = refl

delete_monitor-Gone_example :
    (((delete_monitor api "7" (err no_answer ∷ ok "first" ∷ [])).0 ≡ none)
      ↔ Gone api "7" (err no_answer, ok "first" ∷ []))
    × ((f : Failure)
        → (delete_monitor api "7" (err no_answer ∷ ok "first" ∷ [])).0 ≡ some f
        → ◌≡◌ {A = Result String} (err no_answer) (err f))
delete_monitor-Gone_example =
    delete_monitor-Gone api "7" (err no_answer ∷ ok "first" ∷ []) delete_7_made

abbrev pub refused : Failure
refused = failure "Get \"https://api/monitors/1404\": connection refused" []

pub refused_names_id :
    refused.message
    ≡ concat ("Get \"https://api/monitors/" ∷ "1404" ∷ "\": connection refused" ∷ [])
unfolding concat
refused_names_id = refl

pub has_404 : contains "1404" "404" ≡ true
unfolding contains has_prefix
has_404 = refl

pub refused_get :
    do_json api "GET"
      (concat ("monitors/" ∷ "1404" ∷ []))
      no_body
      api.decode_monitor
      (err refused ∷ [])
    ≡ (err refused, [])
unfolding do_json exchange new_request then_do checked
refused_get = refl

pub get_is_refused : get_monitor api "1404" (err refused ∷ []) ≡ (not_found, [])
get_is_refused =
    get_monitor_id_404 api "1404" (err refused ∷ []) "Get \"https://api/monitors/"
      "\": connection refused" refused_get refused_names_id has_404

abbrev pub twice_refused : Script
twice_refused = err refused ∷ err refused ∷ []

base_urls :
    (client_url "" ≡ "https://api.uptimerobot.com/v3")
    × (client_url "http://localhost:8080/" ≡ "http://localhost:8080")
unfolding client_url trim_slash same_text
base_urls = (refl, refl)
