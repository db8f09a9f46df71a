-- ===== src/Api/Listing/Laws.antt =====
-- What listAllMonitors gives (internal/uptimerobot/client.go).
use uptime_robot_operator.Prelude.{
  ◌≡◌, refl, sym, ap, ◌≤◌, ◌<◌, leb, if◌then◌else◌, ℕ, zero, suc, String, none, some, List, [], ◌∷◌,
  ◌++◌, arith,
}
use uptime_robot_operator.Failure.{Result, ok}
use uptime_robot_operator.Duplicate.{MonitorResponse}
use uptime_robot_operator.Api.Transport.{
  decode_page, Transport, Page, no_body, do_json, do_get_json,
}
use uptime_robot_operator.Api.Listing.{
  link_of, next_url, on_page, on_link, follow, list_all_monitors,
}

-- the request for the page behind a link
abbrev get_page : {W : Type 0} → Transport W → String → W → Result Page × W
get_page t u w = do_get_json t (next_url t.base_url u) (decode_page t) w

-- The pages that a server hands out from a page on, one for each link: the monitors of all of them,
-- the world after the last, and the number of links.
pub data Pages {W : Type 0} (t : Transport W)
    : Page → W → List MonitorResponse → W → ℕ → Type 0 where
  last : {page : Page} {w : W} → link_of page.next_link ≡ none → Pages t page w page.monitors w 0
  more :
      {page next : Page} {u : String} {w v w' : W} {ms : List MonitorResponse} {n : ℕ}
      → link_of page.next_link ≡ some u
      → get_page t u w ≡ (ok next, v)
      → Pages t next v ms w' n
      → Pages t page w (page.monitors ++ ms) w' (suc n)

++_assoc {ℓ} : {A : Type ℓ} (xs ys zs : List A) → (xs ++ ys) ++ zs ≡ xs ++ (ys ++ zs)
++_assoc [] ys zs = refl
++_assoc (x ∷ xs) ys zs = ap (λ l. x ∷ l) (++_assoc xs ys zs)

follow_pages :
    {W : Type 0} (t : Transport W) {page : Page} {w w' : W} {ms : List MonitorResponse} {n : ℕ}
    (before : List MonitorResponse) (fuel : ℕ)
    → Pages t page w ms w' n
    → n ≤ fuel
    → follow t fuel (before ++ page.monitors) page w ≡ some (ok (before ++ ms), w')
unfolding follow on_link on_page
follow_pages t before zero (last e) h = rw e
follow_pages t before (suc fuel) (last e) h = rw e
follow_pages t before zero (more e g p) h = absurd (omega arith)
follow_pages t {page} {ms = ms} before (suc fuel) (more {next = next} {ms = rest} e g p) h = rw e (
    rw g (
      rw (sym (++_assoc before page.monitors rest))
        (follow_pages t (before ++ page.monitors) fuel p (omega arith))))

follow_short :
    {W : Type 0} (t : Transport W) {page : Page} {w w' : W} {ms : List MonitorResponse} {n : ℕ}
    (all : List MonitorResponse) (fuel : ℕ)
    → Pages t page w ms w' n
    → fuel < n
    → follow t fuel all page w ≡ none
unfolding follow on_link on_page
follow_short t all fuel (last e) h = absurd (omega arith)
follow_short t all zero (more e g p) h = rw e
follow_short t all (suc fuel) (more {next = next} e g p) h =
    rw e (rw g (follow_short t (all ++ next.monitors) fuel p (omega arith)))

-- Where the API answers the first request with a page, and the links from it end after `n` more
-- pages, listAllMonitors returns the monitors of all the pages in order once it may follow `n` links,
-- and has not returned while it may follow fewer.
pub list_all_monitors_pages :
    {W : Type 0} (t : Transport W) {page : Page} {v w' : W} {ms : List MonitorResponse} {n : ℕ}
    (fuel : ℕ) (w : W)
    → do_json t "GET" "monitors" no_body (decode_page t) w ≡ (ok page, v)
    → Pages t page v ms w' n
    → list_all_monitors t fuel w ≡ (if leb n fuel then some (ok ms, w') else none)
unfolding list_all_monitors on_page
list_all_monitors_pages t {page} {v} {w'} {ms} {n} fuel w e p =
    let enough : n ≤ fuel → follow t fuel page.monitors page v ≡ some (ok ms, w') =
      λ h. follow_pages t [] fuel p h in
    let short : fuel < n → follow t fuel page.monitors page v ≡ none =
      λ h. follow_short t page.monitors fuel p h in
    rw e (ground (arith, enough, short))

follow_loops :
    {W : Type 0} (t : Transport W) {page : Page} {v : W} {u : String} (all : List MonitorResponse)
    (fuel : ℕ)
    → link_of page.next_link ≡ some u
    → get_page t u v ≡ (ok page, v)
    → follow t fuel all page v ≡ none
unfolding follow on_link on_page
follow_loops t all zero l g = rw l
follow_loops t {page} all (suc fuel) l g =
    rw l (rw g (follow_loops t (all ++ page.monitors) fuel l g))

-- A page whose link leads to a page with the same link is followed for ever.
pub list_all_monitors_loops :
    {W : Type 0} (t : Transport W) {page : Page} {v : W} {u : String} (fuel : ℕ) (w : W)
    → do_json t "GET" "monitors" no_body (decode_page t) w ≡ (ok page, v)
    → link_of page.next_link ≡ some u
    → get_page t u v ≡ (ok page, v)
    → list_all_monitors t fuel w ≡ none
unfolding list_all_monitors on_page
list_all_monitors_loops t {page} fuel w e l g = rw e (follow_loops t page.monitors fuel l g)
