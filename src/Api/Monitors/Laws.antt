-- ===== src/Api/Monitors/Laws.antt =====
-- What DeleteMonitor and GetMonitor make of the answers of the API
-- (internal/uptimerobot/client.go).
use uptime_robot_operator.Prelude.{
  ◌≡◌, refl, sym, ◌∙◌, ap, ◌↔◌, ◌⊎◌, String, Bool, true, false, ◌&&◌, Option, none, some, [], ◌∷◌,
  Bool-cases, inl, inr, when_true, when_false,
}
use uptime_robot_operator.Text.{contains, concat}
use uptime_robot_operator.Text.Laws.{contains-append_left, contains-append_right}
use uptime_robot_operator.Failure.{Failure, Result, ok, err, is, err_status, err_monitor_not_found}
use uptime_robot_operator.Duplicate.{not_found}
use uptime_robot_operator.Api.Transport.{Transport, Request, no_body, new_request, do_json}
use uptime_robot_operator.Api.Monitors.{
  or_not_found, get_monitor, find_by_id, find_monitor_id, unless_gone, deleted, delete_with,
  delete_monitor,
}

-- the search for a monitor by its id
abbrev pub search : {W : Type 0} → Transport W → String → W → Result String
search t id w = (find_monitor_id t (find_by_id t id) w).0

-- an error that is a status with "404" in the message
abbrev pub is_404 : Failure → Bool
is_404 e = is e err_status && contains e.message "404"

-- What an answer to the DELETE of a monitor says for it to count as deleted: it was accepted, its error is a
-- 404, or the search finds that there is no such monitor.
pub data Gone {W : Type 0} (t : Transport W) (id : String) : Result String × W → Type 0 where
  accepted : {body : String} {w : W} → Gone t id (ok body, w)
  missing : {e : Failure} {w : W} → is_404 e ≡ true → Gone t id (err e, w)
  unlisted :
      {e f : Failure} {w : W}
      → search t id w ≡ err f
      → is f err_monitor_not_found ≡ true
      → Gone t id (err e, w)

not_none : (e : Failure) → ¬ (some e ≡ none)
not_none e h = cc

some_same : (e f : Failure) → some e ≡ some f → e ≡ f
some_same e f h = cc

-- whether the error of a search is ErrMonitorNotFound
not_found_in : Result String → Bool
not_found_in (ok x) = false
not_found_in (err f) = is f err_monitor_not_found

module _ {W : Type 0} (t : Transport W) (id : String) where
  by_search :
      (e : Failure) (w : W)
      → is_404 e ≡ false
      → deleted t id (err e, w) ≡ unless_gone e (find_monitor_id t (find_by_id t id) w)
  unfolding deleted
  by_search e w c = when_false _ _ _ c

  by_404 : (e : Failure) (w : W) → is_404 e ≡ true → deleted t id (err e, w) ≡ (none, w)
  unfolding deleted
  by_404 e w c = when_true _ _ _ c

  unlisted_done :
      (e : Failure) (p : Result String × W) {f : Failure}
      → p.0 ≡ err f
      → is f err_monitor_not_found ≡ true
      → (unless_gone e p).0 ≡ none
  unfolding unless_gone not_found_in
  unlisted_done e (ok x, w) q b = absurd cc
  unlisted_done e (err g, w) {f} q b =
      let same : is g err_monitor_not_found ≡ true = ap not_found_in q ∙ b in when_true _ _ _ same

  Gone-deleted : (p : Result String × W) → Gone t id p → (deleted t id p).0 ≡ none
  unfolding deleted
  Gone-deleted _ accepted = refl
  Gone-deleted _ (missing {e} {w} c) = ap (λ (x : Option Failure × W). x.0) (by_404 e w c)
  Gone-deleted _ (unlisted {e} {f} {w} q b) = elim (Bool-cases (is_404 e)) [
    | inl c ↦ ap (λ (x : Option Failure × W). x.0) (by_404 e w c)
    | inr c ↦ ap (λ (x : Option Failure × W). x.0) (by_search e w c) ∙ unlisted_done e _ q b
  ]

  -- what the search decides
  searched :
      (e : Failure) (w : W) (p : Result String × W)
      → search t id w ≡ p.0
      → ((unless_gone e p).0 ≡ some e) ⊎ Gone t id (err e, w)
  unfolding unless_gone
  searched e w (ok x, v) q = inl refl
  searched e w (err f, v) q = elim (Bool-cases (is f err_monitor_not_found)) [
    | inl b ↦ inr (unlisted q b)
    | inr b ↦ inl (when_false _ _ _ b)
  ]

  -- The error is that of the DELETE, unless the monitor is gone.
  failed_or_gone :
      (p : Result String × W)
      → ((e : Failure) × (p.0 ≡ err e) × ((deleted t id p).0 ≡ some e)) ⊎ Gone t id p
  failed_or_gone (ok body, w) = inr accepted
  failed_or_gone (err e, w) = elim (Bool-cases (is_404 e)) [
    | inl c ↦ inr (missing c)
    | inr c ↦ elim (searched e w (find_monitor_id t (find_by_id t id) w) refl) [
      | inl s ↦ inl (e, refl, ap (λ (x : Option Failure × W). x.0) (by_search e w c) ∙ s)
      | inr g ↦ inr g
    ]
  ]

  outcome :
      (p : Result String × W)
      → (((deleted t id p).0 ≡ none) ↔ Gone t id p)
        × ((f : Failure) → (deleted t id p).0 ≡ some f → p.0 ≡ err f)
  outcome p = elim (failed_or_gone p) [
    | inl (e, q, s) ↦ (
      (λ n. absurd (not_none e (sym s ∙ n)), Gone-deleted p),
      λ f h. q ∙ ap err (some_same e f (sym s ∙ h)),
    )
    | inr g ↦
        ((λ n. g, λ h. Gone-deleted p h), λ f h. absurd (not_none f (sym h ∙ Gone-deleted p g)))
  ]

  -- Where the request can be made, DeleteMonitor reports a success if and only if the DELETE was accepted,
  -- its error is a status with "404" in the message, or a search by the id, sent after the answer, says
  -- that there is no such monitor; every error that it reports is that of the DELETE itself.
  pub delete_monitor-Gone :
      (w : W) {request : Request}
      → new_request t "DELETE" (concat ("monitors/" ∷ id ∷ [])) no_body ≡ ok request
      → (((delete_monitor t id w).0 ≡ none) ↔ Gone t id (t.perform request w))
        × ((f : Failure) → (delete_monitor t id w).0 ≡ some f → (t.perform request w).0 ≡ err f)
  unfolding delete_monitor delete_with
  delete_monitor-Gone w {request} q = rw q (outcome (t.perform request w))

mentions_id :
    (pre id post sub : String)
    → contains id sub ≡ true
    → contains (concat (pre ∷ id ∷ post ∷ [])) sub ≡ true
unfolding concat
mentions_id pre id post sub h = contains-append_right pre _ sub (contains-append_left id _ sub h)

-- Any error of the request, such as that of a broken connection, whose message names the id of the
-- monitor, counts as "monitor not found" where the id has the digits 404 in it.
pub get_monitor_id_404 :
    {W : Type 0} (t : Transport W) (id : String) (w : W) {e : Failure} {v : W} (pre post : String)
    → do_json t "GET" (concat ("monitors/" ∷ id ∷ [])) no_body t.decode_monitor w ≡ (err e, v)
    → e.message ≡ concat (pre ∷ id ∷ post ∷ [])
    → contains id "404" ≡ true
    → get_monitor t id w ≡ (not_found, v)
unfolding get_monitor or_not_found
get_monitor_id_404 t id w {e} pre post q m h =
    let said : contains e.message "404" ≡ true =
      ap (λ s. contains s "404") m ∙ mentions_id pre id post "404" h in
    rw q (rw said refl)
