-- ===== src/Controller/Session/Laws.antt =====
-- Sequences of actions that come to their end.
use uptime_robot_operator.Prelude.{◌≡◌, refl, ap, sym, ◌∙◌}
use uptime_robot_operator.Failure.{Failure, Result, ok, err}
use uptime_robot_operator.Reconcile.Session.{Exit, Ending, continues, exits}
use uptime_robot_operator.Controller.Session.{
  Session, Action, onward, exit, call, value_or, read_or,
}

module _ {W Spec Extra : Type 0} where
  pub onward-continues :
      {A B : Type 0} (p : Exit A × Session W Spec Extra) (f : A → Action W Spec Extra B) {b : B}
      {s : Session W Spec Extra}
      → onward p f ≡ (continues b, s)
      → (a : A) × (s₁ : Session W Spec Extra) × (p ≡ (continues a, s₁))
        × (f a s₁ ≡ (continues b, s))
  unfolding onward
  onward-continues (continues a, s₁) f h = (a, s₁, refl, h)
  onward-continues (exits e, s₁) f h = absurd cc

  pub onward-exit :
      {A B : Type 0} (p : Exit A × Session W Spec Extra) (e : Ending) {b : B}
      {s : Session W Spec Extra}
      → ¬ (onward p (λ u. exit e) ≡ (continues b, s))
  unfolding onward exit
  onward-exit (continues a, s₁) e h = cc
  onward-exit (exits x, s₁) e h = cc

  -- an action that never goes on
  abbrev pub Ends : {A : Type 0} → Action W Spec Extra A → Type 0
  Ends {A} m =
      (s : Session W Spec Extra) (a : A) (s' : Session W Spec Extra) → ¬ (m s ≡ (continues a, s'))

  value_or-continues :
      {A : Type 0} (handler : Failure → Action W Spec Extra A) (r : Result A)
      (s : Session W Spec Extra) {a : A} {s' : Session W Spec Extra}
      → ((e : Failure) → Ends (handler e))
      → value_or handler r s ≡ (continues a, s')
      → (r ≡ ok a) × (s' ≡ s)
  unfolding value_or
  value_or-continues handler (ok x) s n h = (cc, cc)
  value_or-continues handler (err e) s n h = absurd (n e s _ _ h)

  -- What follows a read that goes on: it was answered, and the rest runs on its answer.
  pub read_or_then :
      {A B : Type 0} (f : W → Result A × W) (handler : Failure → Action W Spec Extra A)
      (g : A → Action W Spec Extra B) (s : Session W Spec Extra) {b : B} {s' : Session W Spec Extra}
      → ((e : Failure) → Ends (handler e))
      → onward (read_or f handler s) g ≡ (continues b, s')
      → (a : A) × (v : W) × (f s.world ≡ (ok a, v))
        × (g a (record s { world = v }) ≡ (continues b, s'))
  unfolding call onward
  read_or_then f handler g s n h =
      let (a, s₁, e₁, h₁) = onward-continues _ g h in
      let (e, same) = value_or-continues handler (f s.world).0 _ n e₁ in
      (a, (f s.world).1, ap (λ (r : Result _). (r, (f s.world).1)) e, ap (g a) (sym same) ∙ h₁)

  -- what follows an action that has ended does not matter
  ended_twice :
      {A B C : Type 0} (p : Exit A × Session W Spec Extra) (f f' : A → Action W Spec Extra B)
      (g g' : B → Action W Spec Extra C)
      → ((a : A) (s : Session W Spec Extra) → ¬ (p ≡ (continues a, s)))
      → onward (onward p f) g ≡ onward (onward p f') g'
  unfolding onward
  ended_twice (continues a, s) f f' g g' n = absurd (n a s refl)
  ended_twice (exits e, s) f f' g g' n = refl

  pub onward_ended_twice :
      {A B C : Type 0} (p q : Exit A × Session W Spec Extra) (f f' : A → Action W Spec Extra B)
      (g g' : B → Action W Spec Extra C)
      → p ≡ q
      → ((a : A) (s : Session W Spec Extra) → ¬ (q ≡ (continues a, s)))
      → onward (onward p f) g ≡ onward (onward q f') g'
  onward_ended_twice p q f f' g g' e n =
      ap (λ x. onward (onward x f) g) e ∙ ended_twice q f f' g g' n
