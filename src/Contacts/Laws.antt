-- ===== src/Contacts/Laws.antt =====
-- Which id a contact has after a reconcile (internal/controller/contact_controller.go).
use uptime_robot_operator.Prelude.{
  ◌≡◌, refl, sym, ap, ◌∙◌, String, Bool, true, false, not, inl, inr, if◌then◌else◌, Bool-cases,
  when_true, when_false, ℕ, List,
}
use uptime_robot_operator.Prelude.Int.{ℤ}
use uptime_robot_operator.Text.{is_blank}
use uptime_robot_operator.Conditions.{
  Condition, ConditionStatus, condition_true, condition_false, condition_unknown,
  reason_reconcile_success, reason_sync_success, reason_sync_skipped, set_ready_condition,
  set_synced_condition, set_error_condition,
}
use uptime_robot_operator.Reconcile.Main.ReportLaws.{Report, set_three, set_three-Reads, Reads}
use uptime_robot_operator.Failure.{Failure, ok}
use uptime_robot_operator.Api.Transport.{Transport}
use uptime_robot_operator.Api.Account.{find_contact_id}
use uptime_robot_operator.Reconcile.Session.{Exit, continues}
use uptime_robot_operator.Controller.Session.{
  Object, Cluster, Session, onward, on_status, proceed, read_or,
}
use uptime_robot_operator.Controller.Session.Laws.{read_or_then, onward-continues, Ends}
use uptime_robot_operator.Controller.Status.{write_status, try_write, mark_unready}
use uptime_robot_operator.Controller.Status.Laws.{with_conditions, refuse-Ends, api_failed-Ends}
use uptime_robot_operator.Contacts.{
  ContactAction, ContactSpec, ContactExtra, ContactValues, contact_not_found_by_name,
  contact_unspecified, contact_id, report_contact, mark_contact_ready, keep_contact, sync_contact,
  resolve_contact, note_contact,
}

module _ {W : Type 0} (k : Cluster W ContactSpec ContactExtra) where
  named-Ends : {A : Type 0} (e : Failure) → Ends (contact_not_found_by_name k {A = A} e)
  unfolding contact_not_found_by_name mark_unready on_status onward
  named-Ends e s a s' h = api_failed-Ends k (write_status k) _ _ _ _ a s' h

  unspecified-Ends : {A : Type 0} → Ends (contact_unspecified k {A = A})
  unfolding contact_unspecified mark_unready on_status onward
  unspecified-Ends s a s' h = refuse-Ends k (write_status k) _ _ _ _ a s' h

  -- where the id of a contact comes from
  pub data Chosen (t : Transport W) (v : ContactValues) (s : Session W ContactSpec ContactExtra)
      : String → Bool → Session W ContactSpec ContactExtra → Type 0 where
    by_id : is_blank v.id ≡ false → Chosen t v s v.id false s
    by_name :
        {id : String} {w : W}
        → is_blank v.id ≡ true
        → is_blank v.name ≡ false
        → find_contact_id t k.codec v.name s.world ≡ (ok id, w)
        → Chosen t v s id true (record s { world = w })

  -- the branches of contact_id
  by_fields :
      (t : Transport W) (v : ContactValues) (s : Session W ContactSpec ContactExtra) {b c : Bool}
      → is_blank v.id ≡ b
      → is_blank v.name ≡ c
      → contact_id k t v s ≡ (
          if not b
          then (continues (v.id, false), s)
          else if not c
          then onward
              (read_or (find_contact_id t k.codec v.name) (contact_not_found_by_name k) s)
              (λ id. proceed (id, true))
          else contact_unspecified k s)
  unfolding contact_id
  by_fields t v s {b} e f =
      ap
        (λ (b : Bool).
          if not b
          then (continues (v.id, false), s)
          else if not (is_blank v.name)
          then onward (read_or (find_contact_id t k.codec v.name) (contact_not_found_by_name k) s)
              (λ id. proceed (id, true))
          else contact_unspecified k s)
        e
      ∙ ap
          (λ (c : Bool).
            if not b
            then (continues (v.id, false), s)
            else if not c
            then onward (read_or (find_contact_id t k.codec v.name) (contact_not_found_by_name k) s)
                (λ id. proceed (id, true))
            else contact_unspecified k s)
          f

  as-Chosen :
      (t : Transport W) (v : ContactValues) (s : Session W ContactSpec ContactExtra) {x y : String}
      {b c : Bool} {s₁ s₂ : Session W ContactSpec ContactExtra}
      → ◌≡◌ {A = Exit (String × Bool) × Session W ContactSpec ContactExtra}
          (continues (x, b), s₁)
          (continues (y, c), s₂)
      → Chosen t v s x b s₁
      → Chosen t v s y c s₂
  as-Chosen t v s {x} {y} {b} {c} {s₁} {s₂} h q =
      let e : x ≡ y = cc in
      let f : b ≡ c = cc in let g : s₁ ≡ s₂ = cc in rw (← e) (rw (← f) (rw (← g) q))

  -- An id that is chosen is that of the specification, or where the specification has none, that of the
  -- contact in UptimeRobot with the name of the specification.
  pub contact_id-Chosen :
      (t : Transport W) (v : ContactValues) (s : Session W ContactSpec ContactExtra) {id : String}
      {b : Bool} {s' : Session W ContactSpec ContactExtra}
      → contact_id k t v s ≡ (continues (id, b), s')
      → Chosen t v s id b s'
  unfolding contact_id proceed
  contact_id-Chosen t v s h = elim (Bool-cases (is_blank v.id)) [
    | inl y ↦ elim (Bool-cases (is_blank v.name)) [
      | inl z ↦ absurd (unspecified-Ends s _ _ (sym (by_fields t v s y z) ∙ h))
      | inr n ↦
          let (x, w, e, h₁) =
            read_or_then _ _ _ s (named-Ends {A = String}) (sym (by_fields t v s y n) ∙ h) in
          as-Chosen t v s h₁ (by_name y n e)
    ]
    | inr n ↦ as-Chosen t v s (sym (by_fields t v s n refl) ∙ h) (by_id n)
  ]

  abbrev said : ConditionStatus → String → String → Report
  said status reason message = record { status = status; reason = reason; message = message }

  -- the report of a success: Synced is unknown where the reference was not looked up
  abbrev synced_of : Bool → ConditionStatus
  synced_of b = if b then condition_true else condition_unknown

  reported :
      (b : Bool) (skipped : String) (s s' : Session W ContactSpec ContactExtra)
      → report_contact k b skipped s ≡ (continues tt, s')
      → (cs : List Condition) × Reads condition_true (synced_of b) condition_false cs
        × (try_write k (write_status k) (record s { object = with_conditions k s.object cs })
            ≡ (continues tt, s'))
  unfolding report_contact onward on_status set_ready_condition set_synced_condition
      set_error_condition
  reported true skipped s s' h =
      let clock : ℕ → ℤ = k.clock s.world in
      let ready = said condition_true reason_reconcile_success "Contact reconciled successfully" in
      let synced =
        said condition_true reason_sync_success "Successfully validated contact reference" in
      let error = said condition_false reason_reconcile_success "" in
      (
        set_three clock s.object.generation ready synced error s.object.status.conditions,
        set_three-Reads clock s.object.generation ready synced error s.object.status.conditions,
        h,
      )
  reported false skipped s s' h =
      let clock : ℕ → ℤ = k.clock s.world in
      let ready = said condition_true reason_reconcile_success "Contact reconciled successfully" in
      let synced = said condition_unknown reason_sync_skipped skipped in
      let error = said condition_false reason_reconcile_success "" in
      (
        set_three clock s.object.generation ready synced error s.object.status.conditions,
        set_three-Reads clock s.object.generation ready synced error s.object.status.conditions,
        h,
      )

  -- where the id of a contact comes from at the end of a synchronisation
  pub data Source (t : Transport W) (s : Session W ContactSpec ContactExtra)
      : String → Bool → W → Type 0 where
    kept : is_blank s.object.status.id ≡ false → Source t s s.object.status.id false s.world
    chosen :
        {id : String} {b : Bool} {w : W}
        → is_blank s.object.status.id ≡ true
        → Chosen t s.object.spec.contact s id b (record s { world = w })
        → Source t s id b w

  -- what the status that is written last says
  pub record Says (o m : Object ContactSpec ContactExtra) (id : String) (looked_up : Bool)
      : Type 0 where
    pub spec : m.spec ≡ o.spec
    pub ready : m.status.ready ≡ true
    pub id_is : m.status.id ≡ id
    pub reads : Reads condition_true (synced_of looked_up) condition_false m.status.conditions

  abbrev pub Synced :
      Transport W → Session W ContactSpec ContactExtra → Session W ContactSpec ContactExtra → Type 0
  Synced t s s' =
      (id : String) × (b : Bool) × (w : W) × (m : Object ContactSpec ContactExtra) × Source t s id b
        w
      × Says s.object m id b
      × (try_write k (write_status k) (record { object = m; world = w }) ≡ (continues tt, s'))

  kept-Synced :
      (t : Transport W) (s s' : Session W ContactSpec ContactExtra)
      → is_blank s.object.status.id ≡ false
      → keep_contact k s ≡ (continues tt, s')
      → Synced t s s'
  unfolding keep_contact mark_contact_ready onward on_status
  kept-Synced t s s' n h =
      let (cs, reads, w) = reported false _ _ s' h in
      (
        s.object.status.id,
        false,
        s.world,
        _,
        kept n,
        record { spec = refl; ready = refl; id_is = refl; reads = reads },
        w,
      )

  -- the note of the id and the report, after a choice
  resolve_contact-Synced :
      (t : Transport W) (s s' : Session W ContactSpec ContactExtra) {id : String} {b : Bool}
      {s₁ : Session W ContactSpec ContactExtra} (skipped : String)
      → is_blank s.object.status.id ≡ true
      → Chosen t s.object.spec.contact s id b s₁
      → onward (note_contact k id s₁) (λ u. report_contact k b skipped) ≡ (continues tt, s')
      → Synced t s s'
  unfolding note_contact onward on_status
  resolve_contact-Synced t s s' skipped y (by_id n) h =
      let (cs, reads, w) = reported false skipped _ s' h in
      (
        _,
        false,
        s.world,
        _,
        chosen y (by_id n),
        record { spec = refl; ready = refl; id_is = refl; reads = reads },
        w,
      )
  resolve_contact-Synced t s s' skipped y (by_name {id} {w} z n e) h =
      let (cs, reads, wr) = reported true skipped _ s' h in
      (
        id,
        true,
        w,
        _,
        chosen y (by_name z n e),
        record { spec = refl; ready = refl; id_is = refl; reads = reads },
        wr,
      )

  resolved-Synced :
      (t : Transport W) (s s' : Session W ContactSpec ContactExtra)
      → is_blank s.object.status.id ≡ true
      → resolve_contact k t s.object.spec.contact s ≡ (continues tt, s')
      → Synced t s s'
  unfolding resolve_contact
  resolved-Synced t s s' y h =
      let ((id, b), s₁, e₁, h₁) = onward-continues _ _ h in
      resolve_contact-Synced t s s' _ y (contact_id-Chosen t s.object.spec.contact s e₁) h₁

  -- A synchronisation of a contact that succeeds ends with a write of its status, ready and with conditions
  -- that read Ready true and Error false. An id that the status had is kept, nothing is asked of
  -- UptimeRobot, and Synced is unknown, whatever the specification says. Where the status had none, the
  -- id is that of the specification, with Synced unknown, or where it has none, that of the contact in
  -- UptimeRobot with the name of the specification, with Synced true.
  pub sync_contact-Synced :
      (t : Transport W) (s s' : Session W ContactSpec ContactExtra)
      → sync_contact k t s.object s ≡ (continues tt, s')
      → Synced t s s'
  unfolding sync_contact
  sync_contact-Synced t s s' h = elim (Bool-cases (is_blank s.object.status.id)) [
    | inl y ↦
        resolved-Synced t s s' y
          (sym (ap (λ (f : ContactAction W (Unit {0})). f s) (when_true _ _ _ y)) ∙ h)
    | inr n ↦
        kept-Synced t s s' n
          (sym (ap (λ (f : ContactAction W (Unit {0})). f s) (when_false _ _ _ n)) ∙ h)
  ]
