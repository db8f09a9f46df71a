-- ===== src/Tests/CreateTests.antt =====
-- Tests of the model of CreateMonitor and EditMonitor of internal/uptimerobot/client.go.
use uptime_robot_operator.Prelude.{◌≡◌, refl, some, [], ◌∷◌, same_text}
use uptime_robot_operator.Prelude.Int.{pos}
use uptime_robot_operator.Text.{contains, concat, has_prefix, trim_space, trim_slash}
use uptime_robot_operator.Strconv.{itoa, decimal, digit}
use uptime_robot_operator.Failure.{Failure, ok, err, failure, is, err_status}
use uptime_robot_operator.Request.Payload.{CreateMonitorRequest, UpdateMonitorRequest}
use uptime_robot_operator.Request.Build.{
  create_request, update_request, build_create_monitor_request, build_update_monitor_request,
}
use uptime_robot_operator.Duplicate.{
  select_duplicate_monitor_candidate, scan, is_match, normalize_url,
}
use uptime_robot_operator.Api.Transport.{
  Request, create_body, new_request, do_json, do_get_json, exchange, then_do, checked,
}
use uptime_robot_operator.Api.Listing.{
  list_all_monitors, link_of, next_url, on_page, on_link, follow,
}
use uptime_robot_operator.Api.Create.{
  create_monitor, edit_monitor, returned, create_with, posted, conflict, after_dash,
  parse_monitor_id_from_409_body, positive_id, search_duplicate, found, candidate,
}
use uptime_robot_operator.Api.Create.Laws.{Origin, create_monitor_origin}
use uptime_robot_operator.Api.Create.EditLaws.{patch, edit_monitor_duplicates}
use uptime_robot_operator.Tests.RequestTests.{site}
use uptime_robot_operator.Tests.ApiTests.{
  Script, api, two_pages, refused, refused_names_id, has_404, refused_get, twice_refused,
}

abbrev site_update : UpdateMonitorRequest
site_update = update_request site [] (pos 300_000_000_000) (pos 30_000_000_000)

abbrev site_create : CreateMonitorRequest
site_create = create_request site [] (pos 300_000_000_000) (pos 30_000_000_000)

update_built : build_update_monitor_request site [] ≡ some site_update
unfolding build_update_monitor_request
update_built = refl

create_built : build_create_monitor_request site [] ≡ some site_create
unfolding build_create_monitor_request
create_built = refl

refused-patch : patch api "1404" site_update twice_refused ≡ (err refused, err refused ∷ [])
unfolding do_json exchange new_request then_do checked
refused-patch = refl

edit_monitor_duplicates_example :
    edit_monitor api 5 "1404" site [] twice_refused ≡ create_monitor api 5 site [] []
edit_monitor_duplicates_example =
    edit_monitor_duplicates api 5 "1404" site [] twice_refused "Get \"https://api/monitors/"
      "\": connection refused" update_built refused-patch refused_get refused_names_id has_404

abbrev conflicting : Failure
conflicting = failure "error code from Uptime Robot API: 409 Conflict - {}" (err_status ∷ [])

abbrev conflict_then_pages : Script
conflict_then_pages = err conflicting ∷ two_pages

abbrev post : Request
post = record { method = "POST"; url = "https://api/monitors"; body = create_body site_create }

post_made : new_request api "POST" "monitors" (create_body site_create) ≡ ok post
unfolding new_request checked concat
post_made = refl

post_adopts :
    create_monitor api 5 site [] conflict_then_pages
    ≡ returned (ok (record { id = "7"; url = "https://example.com" })) []
unfolding create_monitor create_with posted conflict after_dash parse_monitor_id_from_409_body
    positive_id search_duplicate found candidate list_all_monitors on_page on_link link_of next_url
    follow do_json do_get_json exchange new_request then_do checked build_create_monitor_request is
    contains has_prefix same_text select_duplicate_monitor_candidate scan is_match normalize_url
    trim_space trim_slash itoa decimal digit
post_adopts = refl

create_monitor_origin_example :
    Origin api 5 site
      (err conflicting, two_pages)
      (record { id = "7"; url = "https://example.com" })
create_monitor_origin_example =
    create_monitor_origin api 5 site [] conflict_then_pages create_built post_made post_adopts
