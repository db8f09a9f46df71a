-- ===== src/Controller/Steps/Laws.antt =====
-- Which monitors a maintenance window or a monitor group is given (internal/controller).
use mathlib.Core.List.{Memᴰ}
use uptime_robot_operator.Prelude.{
  ◌≡◌, refl, sym, ap, ◌∙◌, String, true, false, ◌||◌, not, Option, none, some, List, [], ◌∷◌,
  if◌then◌else◌, Bool-cases, inl, inr, ◌⊎◌, Bool, ◌↔◌,
}
use uptime_robot_operator.Prelude.Int.{ℤ}
use uptime_robot_operator.Text.{is_blank}
use uptime_robot_operator.Strconv.{atoi}
use uptime_robot_operator.Failure.{Result, ok, err}
use uptime_robot_operator.Monitor.Resource.{Monitor}
use uptime_robot_operator.Controller.Session.{Cluster}
use uptime_robot_operator.Controller.Steps.{ready_id, id_of, keep_id, resolved_in, resolve_monitors}

-- a Monitor that is ready under a number
pub record IsReadyAs (m : Monitor) (id : ℤ) : Type 0 where
  pub ready : m.status.ready ≡ true
  pub solid : is_blank m.status.id ≡ false
  pub number : atoi m.status.id ≡ some id

gate_opens :
    (b c : Bool) (o : Option ℤ) {id : ℤ}
    → (if not b || c then none else o) ≡ some id
    → (b ≡ true) × (c ≡ false) × (o ≡ some id)
gate_opens true true o h = absurd cc
gate_opens true false o h = (refl, refl, h)
gate_opens false c o h = absurd cc

gate_open :
    (b c : Bool) (o : Option ℤ) {id : ℤ}
    → b ≡ true
    → c ≡ false
    → o ≡ some id
    → (if not b || c then none else o) ≡ some id
gate_open b c o y n h = rw y (rw n h)

id_of-IsReadyAs :
    (r : Result Monitor) (id : ℤ) → id_of r ≡ some id → (m : Monitor) × (r ≡ ok m) × IsReadyAs m id
unfolding ready_id
id_of-IsReadyAs (ok m) id h =
    let (y, n, e) = gate_opens m.status.ready (is_blank m.status.id) (atoi m.status.id) h in
    (m, refl, record { ready = y; solid = n; number = e })
id_of-IsReadyAs (err e) id h = absurd cc

id_of_ready : (m : Monitor) (id : ℤ) → IsReadyAs m id → id_of (ok m) ≡ some id
unfolding ready_id
id_of_ready m id r =
    gate_open m.status.ready (is_blank m.status.id) (atoi m.status.id) r.ready r.solid r.number

kept_or :
    (o : Option ℤ) (ids : List ℤ) (id : ℤ) → Memᴰ id (keep_id o ids) → (o ≡ some id) ⊎ Memᴰ id ids
kept_or none ids id m = inr m
kept_or (some x) ids id (Memᴰ.head e) = inl (ap some (sym e))
kept_or (some x) ids id (Memᴰ.tail m) = inr m

still_kept : (o : Option ℤ) (ids : List ℤ) (id : ℤ) → Memᴰ id ids → Memᴰ id (keep_id o ids)
still_kept none ids id m = m
still_kept (some x) ids id m = Memᴰ.tail m

module _ {W Spec Extra : Type 0} (k : Cluster W Spec Extra) where
  -- a name that leads to a monitor that is ready under a number
  pub record Leads (w : W) (id : ℤ) (name : String) : Type 0 where
    pub named : is_blank name ≡ false
    pub monitor : Monitor
    pub found : (k.get_monitor name w).0 ≡ ok monitor
    pub ready : IsReadyAs monitor id

  module _ (pure : (name : String) (v : W) → (k.get_monitor name v).1 ≡ v) where
    -- the ids for a list of names
    abbrev ids_of : List String → W → List ℤ
    ids_of names w = (resolve_monitors k names w).0

    by_case :
        (name : String) (names : List String) (w : W) (b : Bool)
        → (if b
            then resolve_monitors k names w
            else resolved_in k (resolve_monitors k names) (k.get_monitor name w)).0
          ≡ (if b
              then ids_of names w
              else keep_id (id_of (k.get_monitor name w).0) (ids_of names w))
    by_case name names w true = refl
    by_case name names w false =
        ap (λ v. keep_id (id_of (k.get_monitor name w).0) (ids_of names v)) (pure name w)

    unfolded :
        (name : String) (names : List String) (w : W) {b : Bool}
        → is_blank name ≡ b
        → ids_of (name ∷ names) w ≡ (
            if b then ids_of names w else keep_id (id_of (k.get_monitor name w).0) (ids_of names w))
    unfolding resolve_monitors
    unfolded name names w {b} e =
        ap
          (λ (x : Bool).
            (if x
              then resolve_monitors k names w
              else resolved_in k (resolve_monitors k names) (k.get_monitor name w)).0)
          e
        ∙ by_case name names w b

    -- an id that a later name leads to
    later :
        (name : String) (names : List String) (w : W) (id : ℤ)
        → (n : String) × Memᴰ n names × Leads w id n
        → (n : String) × Memᴰ n (name ∷ names) × Leads w id n
    later name names w id (n, m, l) = (n, Memᴰ.tail m, l)

    id_of-Leads :
        (name : String) (w : W) (id : ℤ)
        → is_blank name ≡ false
        → id_of (k.get_monitor name w).0 ≡ some id
        → Leads w id name
    id_of-Leads name w id e q =
        let (m, f, r) = id_of-IsReadyAs (k.get_monitor name w).0 id q in
        record { named = e; monitor = m; found = f; ready = r }

    sound :
        (names : List String) (w : W) (id : ℤ)
        → Memᴰ id (ids_of names w)
        → (name : String) × Memᴰ name names × Leads w id name
    unfolding resolve_monitors
    sound [] w id m = elim m [ ]
    sound (name ∷ names) w id m = elim (Bool-cases (is_blank name)) [
      | inl e ↦ later name names w id (sound names w id (rw (unfolded name names w e) at m))
      | inr e ↦ elim (kept_or _ _ id (rw (unfolded name names w e) at m)) [
        | inl q ↦ (name, Memᴰ.head refl, id_of-Leads name w id e q)
        | inr t ↦ later name names w id (sound names w id t)
      ]
    ]

    complete :
        (names : List String) (w : W) (id : ℤ) (name : String)
        → Memᴰ name names
        → Leads w id name
        → Memᴰ id (ids_of names w)
    complete [] w id name m l = elim m [ ]
    complete (n ∷ names) w id name (Memᴰ.tail m) l = elim (Bool-cases (is_blank n)) [
      | inl e ↦ rw (unfolded n names w e) (complete names w id name m l)
      | inr e ↦ rw (unfolded n names w e) (still_kept _ _ id (complete names w id name m l))
    ]
    complete (n ∷ names) w id name (Memᴰ.head q) l =
        let e : is_blank n ≡ false = ap is_blank (sym q) ∙ l.named in
        let here : id_of (k.get_monitor n w).0 ≡ some id =
          ap (λ x. id_of (k.get_monitor x w).0) (sym q)
          ∙ ap id_of l.found
          ∙ id_of_ready l.monitor id l.ready in
        rw (unfolded n names w e) (rw here (Memᴰ.head refl))

  -- Where reading a Monitor leaves the world as it is, the ids that are sent are those of the monitors that
  -- the references lead to, no more and no fewer: the name is not blank, the Monitor is found and ready,
  -- and its id is a number.
  pub resolve_monitors_members :
      ((name : String) (v : W) → (k.get_monitor name v).1 ≡ v)
      → (names : List String) (w : W) (id : ℤ)
      → Memᴰ id (resolve_monitors k names w).0
        ↔ ((name : String) × Memᴰ name names × Leads w id name)
  resolve_monitors_members pure names w id =
      (sound pure names w id, λ (name, m, l). complete pure names w id name m l)
