-- ===== src/Api/Create/Laws.antt =====
-- Where the monitor comes from that CreateMonitor and EditMonitor return
-- (internal/uptimerobot/client.go).
use uptime_robot_operator.Prelude.{
  when_true, when_false, ◌≡◌, refl, ◌∙◌, sym, ℕ, String, true, false, not, Option, none, some, List,
  ◌⊎◌, if◌then◌else◌, Bool-cases, inl, inr,
}
use uptime_robot_operator.Text.{is_blank}
use uptime_robot_operator.Strconv.{itoa}
use uptime_robot_operator.Failure.{Failure, Result, ok, err}
use uptime_robot_operator.Monitor.{MonitorValues, MonitorContact}
use uptime_robot_operator.Request.Payload.{CreateMonitorRequest}
use uptime_robot_operator.Request.Build.{build_create_monitor_request}
use uptime_robot_operator.Duplicate.{MonitorResponse, select_duplicate_monitor_candidate}
use uptime_robot_operator.Api.Transport.{Transport, Request, Saved, create_body, new_request}
use uptime_robot_operator.Api.Listing.{list_all_monitors, Listed}
use uptime_robot_operator.Api.Monitors.{get_monitor}
use uptime_robot_operator.Api.Create.{
  MonitorResult, Created, returned, is_conflict, after_dash, parse_monitor_id_from_409_body,
  adopted, found, candidate, waited, search_duplicate, conflict, saved, posted, create_with,
  post_request, create_monitor,
}

abbrev pub named_id : {W : Type 0} → Transport W → Failure → String
named_id t e = parse_monitor_id_from_409_body t (after_dash e.message)

-- The monitors that may come back after an answer to the POST: the new one, the one that a 409 answer
-- names, or the only one of a list that matches.
pub data Origin {W : Type 0} (t : Transport W) (fuel : ℕ) (monitor : MonitorValues)
    : Result String × W → MonitorResult → Type 0 where
  accepted :
      {body : String} {w : W} {s : Saved}
      → t.decode_saved body ≡ ok s
      → Origin t fuel monitor (ok body, w) (record { id = itoa s.id; url = s.url })
  named :
      {e : Failure} {w : W} {url : String}
      → is_conflict e ≡ true
      → is_blank (named_id t e) ≡ false
      → Origin t fuel monitor (err e, w) (record { id = named_id t e; url = url })
  listed :
      {e : Failure} {w : W} (v v' : W) (all : List MonitorResponse) {m : MonitorResponse}
      → is_conflict e ≡ true
      → is_blank (named_id t e) ≡ true
      → list_all_monitors t fuel v ≡ some (ok all, v')
      → select_duplicate_monitor_candidate all monitor ≡ some m
      → Origin t fuel monitor (err e, w) (record { id = itoa m.id; url = m.url })

-- a list that the code asked for, and the match in it
record Match {W : Type 0} (t : Transport W) (fuel : ℕ) (monitor : MonitorValues) (r : MonitorResult)
    : Type 0 where
  before : W
  after : W
  all : List MonitorResponse
  m : MonitorResponse
  is_list : list_all_monitors t fuel before ≡ some (ok all, after)
  is_match : select_duplicate_monitor_candidate all monitor ≡ some m
  is_result : r ≡ record { id = itoa m.id; url = m.url }

-- what a run returned is determined
returned_ok :
    {W : Type 0} {r s : MonitorResult} {w v : W} → returned (ok s) v ≡ returned (ok r) w → r ≡ s
returned_ok h = cc

candidate-Match :
    {W : Type 0} (t : Transport W) (fuel : ℕ) (monitor : MonitorValues) (before after : W)
    (all : List MonitorResponse) (o : Option MonitorResponse) (otherwise : W → Created W)
    {r : MonitorResult} {w' : W}
    → list_all_monitors t fuel before ≡ some (ok all, after)
    → select_duplicate_monitor_candidate all monitor ≡ o
    → candidate o after otherwise ≡ returned (ok r) w'
    → Match t fuel monitor r ⊎ ((u : W) × (otherwise u ≡ returned (ok r) w'))
unfolding candidate
candidate-Match t fuel monitor before after all none otherwise e s h = inr (after, h)
candidate-Match t fuel monitor before after all (some m) otherwise e s h = inl (record {
  before = before;
  after = after;
  all = all;
  m = m;
  is_list = e;
  is_match = s;
  is_result = returned_ok h;
})

found-Match :
    {W : Type 0} (t : Transport W) (fuel : ℕ) (monitor : MonitorValues) (l : Listed W) (v : W)
    (otherwise : W → Created W) {r : MonitorResult} {w' : W}
    → list_all_monitors t fuel v ≡ l
    → found monitor l otherwise ≡ returned (ok r) w'
    → Match t fuel monitor r ⊎ ((u : W) × (otherwise u ≡ returned (ok r) w'))
unfolding found
found-Match t fuel monitor none v otherwise e h = absurd cc
found-Match t fuel monitor (some (err f, w)) v otherwise e h = inr (w, h)
found-Match t fuel monitor (some (ok all, w)) v otherwise e h =
    candidate-Match t fuel monitor v w all (select_duplicate_monitor_candidate all monitor)
      otherwise e refl h

not_an_error :
    {W : Type 0} (f : Failure) {r : MonitorResult} {w v : W}
    → returned (err f) v ≡ returned (ok r) w
    → ⊥
not_an_error f h = cc

waited_through :
    {W : Type 0} (p : Option Failure × W) (after : W → Created W) {r : MonitorResult} {w' : W}
    → waited p after ≡ returned (ok r) w'
    → (u : W) × (after u ≡ returned (ok r) w')
unfolding waited
waited_through (some e, w) after h = absurd (not_an_error e h)
waited_through (none, w) after h = (w, h)

search-Match :
    {W : Type 0} (t : Transport W) (fuel : ℕ) (monitor : MonitorValues) (e : Failure) (w : W)
    {r : MonitorResult} {w' : W}
    → search_duplicate t fuel monitor e w ≡ returned (ok r) w'
    → Match t fuel monitor r
unfolding search_duplicate
search-Match t fuel monitor e w h = elim (found-Match t fuel monitor _ w _ refl h) [
  | inl found_first ↦ found_first
  | inr (v, h₁) ↦
      let (u, h₂) = waited_through (t.wait v) _ h₁ in
      elim (found-Match t fuel monitor _ u _ refl h₂) [
        | inl found_second ↦ found_second
        | inr (x, h₃) ↦ absurd (not_an_error e h₃)
      ]
]

adopted_id :
    {W : Type 0} (id : String) (p : Result MonitorResponse × W) {r : MonitorResult} {w' : W}
    → adopted id p ≡ returned (ok r) w'
    → (url : String) × (r ≡ record { id = id; url = url })
unfolding adopted
adopted_id id (ok m, w) h = (m.url, returned_ok h)
adopted_id id (err e, w) h = ("", returned_ok h)

when_blank {ℓ} :
    {A : Type ℓ} (s : String) (x y : A)
    → is_blank s ≡ true
    → (if not (is_blank s) then x else y) ≡ y
when_blank s x y e = rw e refl

unless_blank {ℓ} :
    {A : Type ℓ} (s : String) (x y : A)
    → is_blank s ≡ false
    → (if not (is_blank s) then x else y) ≡ x
unless_blank s x y e = rw e refl

origin_of_match :
    {W : Type 0} (t : Transport W) (fuel : ℕ) (monitor : MonitorValues) {e : Failure} {w : W}
    {r : MonitorResult}
    → is_conflict e ≡ true
    → is_blank (named_id t e) ≡ true
    → Match t fuel monitor r
    → Origin t fuel monitor (err e, w) r
origin_of_match t fuel monitor c b k =
    rw k.is_result (listed k.before k.after k.all c b k.is_list k.is_match)

conflict_origin :
    {W : Type 0} (t : Transport W) (fuel : ℕ) (monitor : MonitorValues) (e : Failure) (w : W)
    {r : MonitorResult} {w' : W}
    → is_conflict e ≡ true
    → conflict t fuel monitor e (named_id t e) w ≡ returned (ok r) w'
    → Origin t fuel monitor (err e, w) r
unfolding conflict
conflict_origin t fuel monitor e w {r} {w'} c h = elim (Bool-cases (is_blank (named_id t e))) [
  | inl b ↦
      let search : search_duplicate t fuel monitor e w ≡ returned (ok r) w' =
        sym (when_blank _ _ _ b) ∙ h in
      origin_of_match t fuel monitor c b (search-Match t fuel monitor e w search)
  | inr b ↦
      let direct : adopted (named_id t e) (get_monitor t (named_id t e) w) ≡ returned (ok r) w' =
        sym (unless_blank _ _ _ b) ∙ h in
      let (url, same) = adopted_id (named_id t e) (get_monitor t (named_id t e) w) direct in
      rw same (named c b)
]

saved_id :
    {W : Type 0} (d : Result Saved) (w : W) {r : MonitorResult} {w' : W}
    → saved d w ≡ returned (ok r) w'
    → (s : Saved) × (d ≡ ok s) × (r ≡ record { id = itoa s.id; url = s.url })
unfolding saved
saved_id (ok s) w h = (s, refl, returned_ok h)
saved_id (err e) w h = absurd (not_an_error e h)

posted_origin :
    {W : Type 0} (t : Transport W) (fuel : ℕ) (monitor : MonitorValues) (p : Result String × W)
    {r : MonitorResult} {w' : W}
    → posted t fuel monitor p ≡ returned (ok r) w'
    → Origin t fuel monitor p r
unfolding posted
posted_origin t fuel monitor (ok body, w) h =
    let (s, decoded, same) = saved_id (t.decode_saved body) w h in rw same (accepted decoded)
posted_origin t fuel monitor (err e, w) h = elim (Bool-cases (is_conflict e)) [
  | inl c ↦ conflict_origin t fuel monitor e w c (sym (when_true _ _ _ c) ∙ h)
  | inr c ↦ absurd (not_an_error e (sym (when_false _ _ _ c) ∙ h))
]

-- A monitor that CreateMonitor returns without an error is the one that the API created, or, after a
-- 409 answer, the one that the answer names by a positive id, or else the only monitor of a list
-- that the API handed out whose name, and URL where one is wanted, are those of the wanted monitor.
pub create_monitor_origin :
    {W : Type 0} (t : Transport W) (fuel : ℕ) (monitor : MonitorValues)
    (contacts : List MonitorContact) (w : W) {body : CreateMonitorRequest} {request : Request}
    {r : MonitorResult} {w' : W}
    → build_create_monitor_request monitor contacts ≡ some body
    → new_request t "POST" "monitors" (create_body body) ≡ ok request
    → create_monitor t fuel monitor contacts w ≡ returned (ok r) w'
    → Origin t fuel monitor (t.perform request w) r
unfolding create_monitor post_request create_with
create_monitor_origin t fuel monitor contacts w {body} {request} {r} {w'} b q h =
    let sent : posted t fuel monitor (t.perform request w) ≡ returned (ok r) w' =
      sym (rw b (rw q refl)) ∙ h in
    posted_origin t fuel monitor (t.perform request w) sent
