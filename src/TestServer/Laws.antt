-- ===== src/TestServer/Laws.antt =====
-- What the server of the tests answers for a monitor, by the calls that it has served
-- (internal/uptimerobot/uptimerobottest/server.go).
use Prim.Native.String.{◌++◌}
use text.Mathlib.TextLemmas.{nil-append, cons-append}
use uptime_robot_operator.Prelude.{
  ◌≡◌, ◌≢◌, refl, ap, ◌∙◌, ℕ, suc, ◌+◌, String, Bool, true, false, ◌&&◌, Option, none, some, List,
  [], ◌∷◌, map, inl, inr, same_text, same_text_iff, Bool-cases, if◌then◌else◌, arith,
}
use uptime_robot_operator.Prelude.Int.{ℤ, pos, negsuc}
use uptime_robot_operator.Text.{is_blank}
use uptime_robot_operator.Text.Affix.{trim_prefix, trim_suffix, trim_prefix-append}
use uptime_robot_operator.TestServer.MarkLaws.{is_or, among-others}
use uptime_robot_operator.TestServer.{
  Integration, ServerState, Call, Reply, missing, delete_integration, create_integration,
  deleted_numbered, file, error_reply, mark_monitor_deleted, mark_monitor_active, among,
  is_monitor_deleted, names_one, handle_get_monitors, handle_update_monitor, handle_delete_monitor,
  handle_state, handle_create_integration, handle_delete_integration, serve, served,
}

abbrev pub at : String → String
at id = "/monitors/" ++ id

-- the calls that a client makes, by what they are about
pub data Event : Type 0 where
  read removed updated paused started : String → Event
  posted : Option Integration → Event
  dropped : String → Event

abbrev pub call_of : Event → Call
call_of (Event.read id) = Call.get_monitors (at id)
call_of (Event.removed id) = Call.delete_monitor (at id)
call_of (Event.updated id) = Call.patch_monitor (at id)
call_of (Event.paused id) = Call.pause_monitor (at id ++ "/pause")
call_of (Event.started id) = Call.start_monitor (at id ++ "/start")
call_of (Event.posted body) = Call.post_integration body
call_of (Event.dropped path) = Call.delete_at path

-- whether a monitor is deleted after an event, where b says whether it was before
abbrev pub after_event : String → Event → Bool → Bool
after_event id (Event.removed i) b = if same_text i id then true else b
after_event id (Event.updated i) b = if same_text i id then false else b
after_event id _ b = b

abbrev pub after_events : String → List Event → Bool → Bool
after_events id [] b = b
after_events id (e ∷ more) b = after_events id more (after_event id e b)

-- an id that is not empty and does not end in a slash
abbrev pub IsId : String → Type 0
IsId id = (is_blank id ≡ false) × (trim_suffix id "/" ≡ id)

abbrev pub HasId : Event → Type 0
HasId (Event.removed id) = IsId id
HasId (Event.updated id) = IsId id
HasId _ = Unit

abbrev pub HaveIds : List Event → Type 0
HaveIds [] = Unit
HaveIds (e ∷ more) = HasId e × HaveIds more

size : String → ℕ
size String.[] = 0
size (String.◌∷◌ c s) = suc (size s)

size-append : (p s : String) → size (p ++ s) ≡ size p + size s
unfolding size
size-append String.[] s = rw (nil-append s) (omega arith)
size-append (String.◌∷◌ c p) s = rw (cons-append c p s) (omega (arith, size-append p s))

at_other : (id : String) → id ≢ at id
unfolding size
at_other id e =
    let n : size id ≡ 10 + size id = ap size e ∙ size-append "/monitors/" id in omega (arith, n)

at-names_one : (id : String) → is_blank id ≡ false → names_one id (at id) ≡ true
at-names_one id b = elim (Bool-cases (same_text id (at id))) [
  | inl e ↦ absurd (at_other id ((same_text_iff id (at id)).0 e))
  | inr e ↦ rw (b, e) refl
]

removed_one :
    (id i : String) (s : ServerState)
    → IsId i
    → is_monitor_deleted id (handle_delete_monitor (at i) s).1
      ≡ (if same_text i id then true else is_monitor_deleted id s)
unfolding handle_delete_monitor mark_monitor_deleted is_monitor_deleted
removed_one id i s h =
    rw (trim_prefix-append "/monitors/" i, at-names_one i h.0)
      (is_or (same_text i id) (among id s.deleted_monitors))

updated_one :
    (id i : String) (s : ServerState)
    → IsId i
    → is_monitor_deleted id (handle_update_monitor (at i) s).1
      ≡ (if same_text i id then false else is_monitor_deleted id s)
unfolding handle_update_monitor mark_monitor_active is_monitor_deleted
updated_one id i s h =
    rw (trim_prefix-append "/monitors/" i, h.1, at-names_one i h.0)
      (among-others id i s.deleted_monitors)

-- Whatever the tests say, the state is as it was.
read_state :
    (n d : Bool) (x : ℕ × Reply) (s : ServerState)
    → (if n then (if d then missing s else (x, s)) else ((200, file "monitors.json"), s)).1 ≡ s
read_state true true x s = refl
read_state true false x s = refl
read_state false d x s = refl

state_state : (b : Bool) (x : ℕ × Reply) (s : ServerState) → (if b then missing s else (x, s)).1 ≡ s
state_state true x s = refl
state_state false x s = refl

read_first :
    (d : Bool) (s : ServerState)
    → (if d then missing s else ((200, file "monitor.json"), s)).0
      ≡ (if d then (404, error_reply "monitor not found") else (200, file "monitor.json"))
read_first true s = refl
read_first false s = refl

numbered_unmarked :
    (n : Option ℤ) (s : ServerState) → (deleted_numbered n s).deleted_monitors ≡ s.deleted_monitors
unfolding delete_integration
numbered_unmarked none s = refl
numbered_unmarked (some (pos n)) s = refl
numbered_unmarked (some (negsuc n)) s = refl

either_unmarked :
    (b : Bool) (n : Option ℤ) (s : ServerState)
    → (if b then deleted_numbered n s else s).deleted_monitors ≡ s.deleted_monitors
either_unmarked true n s = numbered_unmarked n s
either_unmarked false n s = refl

read_same : (path : String) (s : ServerState) → (handle_get_monitors path s).1 ≡ s
unfolding handle_get_monitors
read_same path s =
    let id = trim_prefix path "/monitors/" in
    read_state (names_one id path) (is_monitor_deleted id s) (200, file "monitor.json") s

state_same : (verb path : String) (s : ServerState) → (handle_state verb path s).1 ≡ s
unfolding handle_state
state_same verb path s =
    let id = trim_suffix (trim_prefix path "/monitors/") verb in
    state_state (names_one id path && is_monitor_deleted id s) (204, Reply.empty_reply) s

posted_unmarked :
    (body : Option Integration) (s : ServerState)
    → (handle_create_integration body s).1.deleted_monitors ≡ s.deleted_monitors
unfolding handle_create_integration create_integration
posted_unmarked none s = refl
posted_unmarked (some i) s = refl

dropped_unmarked :
    (path : String) (s : ServerState)
    → (handle_delete_integration path s).1.deleted_monitors ≡ s.deleted_monitors
unfolding handle_delete_integration
dropped_unmarked path s = either_unmarked _ _ s

after_one :
    (id : String) (e : Event) (s : ServerState)
    → HasId e
    → is_monitor_deleted id (serve (call_of e) s).1 ≡ after_event id e (is_monitor_deleted id s)
unfolding serve is_monitor_deleted
after_one id (Event.removed i) s h = removed_one id i s h
after_one id (Event.updated i) s h = updated_one id i s h
after_one id (Event.read i) s h = ap (is_monitor_deleted id) (read_same (at i) s)
after_one id (Event.paused i) s h =
    ap (is_monitor_deleted id) (state_same "/pause" (at i ++ "/pause") s)
after_one id (Event.started i) s h =
    ap (is_monitor_deleted id) (state_same "/start" (at i ++ "/start") s)
after_one id (Event.posted b) s h = ap (among id) (posted_unmarked b s)
after_one id (Event.dropped p) s h = ap (among id) (dropped_unmarked p s)

after_all :
    (id : String) (es : List Event) (s : ServerState)
    → HaveIds es
    → is_monitor_deleted id (served (map call_of es) s)
      ≡ after_events id es (is_monitor_deleted id s)
unfolding served
after_all id [] s h = refl
after_all id (e ∷ es) s (h, hs) =
    after_all id es (serve (call_of e) s).1 hs ∙ ap (after_events id es) (after_one id e s h)

read_answer :
    (id : String) (s : ServerState)
    → is_blank id ≡ false
    → (serve (Call.get_monitors (at id)) s).0 ≡ (
        if is_monitor_deleted id s
        then (404, error_reply "monitor not found")
        else (200, file "monitor.json"))
unfolding serve handle_get_monitors
read_answer id s b =
    rw (trim_prefix-append "/monitors/" id, at-names_one id b)
      (read_first (is_monitor_deleted id s) s)

-- After any calls about monitors and integrations, a request for a monitor is answered by 404 where the last
-- of the deletions and updates of that monitor was a deletion, or where there was none and it was
-- deleted before, and by the monitor otherwise; the ids are not empty and do not end in a slash.
pub served-read :
    (id : String) (es : List Event) (s : ServerState)
    → is_blank id ≡ false
    → HaveIds es
    → (serve (Call.get_monitors (at id)) (served (map call_of es) s)).0 ≡ (
        if after_events id es (is_monitor_deleted id s)
        then (404, error_reply "monitor not found")
        else (200, file "monitor.json"))
served-read id es s b h =
    read_answer id (served (map call_of es) s) b
    ∙ ap
        (λ (d : Bool).
          if d then (404, error_reply "monitor not found") else (200, file "monitor.json"))
        (after_all id es s h)
