-- ===== src/Reconcile/Steps/Laws.antt =====
-- The contacts that a request is built with (internal/controller/monitor_controller.go).
use uptime_robot_operator.Prelude.{
  ◌≡◌, refl, ◌∙◌, ap, Bool, true, false, List, [], ◌∷◌, if◌then◌else◌,
}
use uptime_robot_operator.Text.{is_blank}
use uptime_robot_operator.Monitor.{MonitorContact}
use uptime_robot_operator.Monitor.Resource.{MonitorContactRef}
use uptime_robot_operator.Reconcile.Session.{
  Cluster, Session, Action, Exit, Ending, Contact, continues, exits, onward, exit, proceed,
}
use uptime_robot_operator.Reconcile.Steps.{contact_of, resolve_contacts}

-- There is one contact for each reference, in order: it is alerted as the reference says, and its id
-- is not blank.
abbrev pub IsResolved : List MonitorContactRef → List MonitorContact → Type 0
IsResolved [] [] = Unit
IsResolved [] (c ∷ cs) = ⊥
IsResolved (r ∷ rs) [] = ⊥
IsResolved (r ∷ rs) (c ∷ cs) = (c.common ≡ r.common) × (is_blank c.id ≡ false) × IsResolved rs cs

onward-continues :
    {W A B : Type 0} (p : Exit A × Session W) (f : A → Action W B) {b : B} {s : Session W}
    → onward p f ≡ (continues b, s)
    → (a : A) × (s₁ : Session W) × (p ≡ (continues a, s₁)) × (f a s₁ ≡ (continues b, s))
unfolding onward
onward-continues (continues a, s₁) f h = (a, s₁, refl, h)
onward-continues (exits e, s₁) f h = absurd cc

continued :
    {W A : Type 0} {a b : A} {s t : Session W}
    → ◌≡◌ {A = Exit A × Session W} (continues a, s) (continues b, t)
    → b ≡ a
continued h = cc

test_continues :
    {W A : Type 0} (b : Bool) (e : Ending) (a : A) (s : Session W) {c : A} {t : Session W}
    → (if b then exit e else proceed a) s ≡ (continues c, t)
    → (b ≡ false) × (c ≡ a)
unfolding exit proceed
test_continues true e a s h = absurd cc
test_continues false e a s h = (refl, continued h)

module _ {W : Type 0} (k : Cluster W) where
  resolved_one :
      (ref : MonitorContactRef) (contact : Contact) (s : Session W) {c : MonitorContact}
      {s₁ : Session W}
      → contact_of k ref contact s ≡ (continues c, s₁)
      → (c.common ≡ ref.common) × (is_blank c.id ≡ false)
  unfolding contact_of
  resolved_one ref contact s h =
      let (solid, same) = test_continues (is_blank contact.status_id) _ _ s h in
      (
        ap (λ (x : MonitorContact). x.common) same,
        ap (λ (x : MonitorContact). is_blank x.id) same ∙ solid,
      )

  -- The contacts that the loop over the references comes to are theirs, one for each in order, with
  -- ids that are not blank.
  pub resolve_contacts-IsResolved :
      (refs : List MonitorContactRef) (s : Session W) {cs : List MonitorContact} {s' : Session W}
      → resolve_contacts k refs s ≡ (continues cs, s')
      → IsResolved refs cs
  unfolding resolve_contacts proceed
  resolve_contacts-IsResolved [] s h = rw (continued h) tt
  resolve_contacts-IsResolved (ref ∷ refs) s h =
      let (contact, s₁, e₁, h₁) = onward-continues _ _ h in
      let (c, s₂, e₂, h₂) = onward-continues _ _ h₁ in
      let (rest, s₃, e₃, h₃) = onward-continues _ _ h₂ in
      let one = resolved_one ref contact s₁ e₂ in
      rw (continued h₃) (one.0, one.1, resolve_contacts-IsResolved refs s₂ e₃)
