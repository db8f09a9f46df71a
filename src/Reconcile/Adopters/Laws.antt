-- ===== src/Reconcile/Adopters/Laws.antt =====
-- Whose monitor a deletion leaves alone (internal/controller/monitor_controller.go).
use mathlib.Core.List.{Memᴰ}
use mathlib.Core.List.Memᴰ.{head, tail}
use uptime_robot_operator.Prelude.{
  ◌≡◌, refl, ◌∙◌, sym, ap, and_true_left, and_true_right, and_true, or_true-cases, or_true_right,
  when_true, when_false, ◌⊎◌, inl, inr, String, Bool, true, false, ◌&&◌, Option, none, some, List,
  [], ◌∷◌, same_text, same_text_iff, same_text_refl, if◌then◌else◌, Bool-cases,
}
use uptime_robot_operator.Text.{is_blank}
use uptime_robot_operator.Failure.{ok}
use uptime_robot_operator.Finalizer.Annotations.{lookup}
use uptime_robot_operator.Monitor.Resource.{Monitor}
use uptime_robot_operator.Api.Transport.{Transport}
use uptime_robot_operator.Api.Monitors.{delete_monitor}
use uptime_robot_operator.Reconcile.Session.{Cluster}
use uptime_robot_operator.Reconcile.Adopters.{
  adopt_id_annotation, has_text, is_adopter, is_considered, is_adopted, cleanup_monitor,
}

-- Another resource, which is not being deleted and uses the same account, asks for the monitor by
-- its annotation or has it already.
pub record Adopts (monitor other : Monitor) : Type 0 where
  pub another : same_text other.uid monitor.uid ≡ false
  pub live : other.is_deleting ≡ false
  pub account : other.spec.account ≡ monitor.spec.account
  pub claim :
      (lookup adopt_id_annotation other.annotations ≡ some monitor.status.id)
      ⊎ ((other.status.ready ≡ true) × (other.status.id ≡ monitor.status.id))

has_text-some : (s : String) (o : Option String) → has_text s o ≡ true → o ≡ some s
has_text-some s none h = cc
has_text-some s (some t) h = ap some ((same_text_iff t s).0 h)

has_text-found : (s : String) (o : Option String) → o ≡ some s → has_text s o ≡ true
has_text-found s o h = rw h (same_text_refl s)

-- the Boolean tests of the loop
abbrev adopts : Monitor → Monitor → Bool
adopts monitor other = is_considered monitor other && is_adopter monitor.status.id other

considered :
    (monitor other : Monitor)
    → same_text other.uid monitor.uid ≡ false
    → other.is_deleting ≡ false
    → other.spec.account ≡ monitor.spec.account
    → is_considered monitor other ≡ true
unfolding is_considered
considered monitor other a l e = rw a (rw l (rw e (same_text_refl monitor.spec.account)))

claimed :
    (id : String) (other : Monitor)
    → (lookup adopt_id_annotation other.annotations ≡ some id)
      ⊎ ((other.status.ready ≡ true) × (other.status.id ≡ id))
    → is_adopter id other ≡ true
unfolding is_adopter
claimed id other (inl e) = rw (has_text-found id _ e)
claimed id other (inr (r, e)) =
    or_true_right _ _ (and_true _ _ r (ap (λ t. same_text t id) e ∙ same_text_refl id))

claim_of :
    (id : String) (other : Monitor)
    → is_adopter id other ≡ true
    → (lookup adopt_id_annotation other.annotations ≡ some id)
      ⊎ ((other.status.ready ≡ true) × (other.status.id ≡ id))
unfolding is_adopter
claim_of id other h = elim (or_true-cases _ _ h) [
  | inl e ↦ inl (has_text-some id _ e)
  | inr e ↦ inr (
    and_true_left _ _ e,
    (same_text_iff other.status.id id).0 (and_true_right other.status.ready _ e),
  )
]

-- the two tests before that of the account
passed :
    (skip_uid skip_live same_account : Bool)
    → (if skip_uid then false else if skip_live then false else same_account) ≡ true
    → (skip_uid ≡ false) × (skip_live ≡ false) × (same_account ≡ true)
passed false false c h = (refl, refl, h)
passed false true c h = cc
passed true b c h = cc

adopts-Adopts : (monitor other : Monitor) → adopts monitor other ≡ true → Adopts monitor other
unfolding is_considered
adopts-Adopts monitor other h =
    let considered_is = and_true_left _ _ h in
    let claims = and_true_right (is_considered monitor other) _ h in
    let (a, l, c) =
      passed (same_text other.uid monitor.uid) other.is_deleting
        (same_text other.spec.account monitor.spec.account) considered_is in
    record {
      another = a;
      live = l;
      account = (same_text_iff other.spec.account monitor.spec.account).0 c;
      claim = claim_of monitor.status.id other claims;
    }

adopts_of-Adopts : (monitor other : Monitor) → Adopts monitor other → adopts monitor other ≡ true
adopts_of-Adopts monitor other a =
    and_true _ _ (considered monitor other a.another a.live a.account)
      (claimed monitor.status.id other a.claim)

either : (b c : Bool) → c ≡ true → (if b then true else c) ≡ true
either true c h = refl
either false c h = h

is_adopted_by :
    (monitor : Monitor) (all : List Monitor) {other : Monitor}
    → Memᴰ other all
    → Adopts monitor other
    → is_adopted monitor all ≡ true
unfolding is_adopted
is_adopted_by monitor [] m a = elim m [ ]
is_adopted_by monitor (o ∷ others) (head e) a =
    when_true _ _ _ (sym (ap (λ x. adopts monitor x) e) ∙ adopts_of-Adopts monitor _ a)
is_adopted_by monitor (o ∷ others) (tail m) a =
    either (adopts monitor o) (is_adopted monitor others) (is_adopted_by monitor others m a)

adopter_of :
    (monitor : Monitor) (all : List Monitor)
    → is_adopted monitor all ≡ true
    → (other : Monitor) × Memᴰ other all × Adopts monitor other
unfolding is_adopted
adopter_of monitor [] h = cc
adopter_of monitor (o ∷ others) h = elim (Bool-cases (adopts monitor o)) [
  | inl e ↦ (o, head refl, adopts-Adopts monitor o e)
  | inr e ↦
      let (other, m, a) = adopter_of monitor others (sym (when_false _ _ _ e) ∙ h) in
      (other, tail m, a)
]

module _ {W : Type 0} (k : Cluster W) (t : Transport W) (monitor : Monitor) (w : W) where
  listed_cleanup :
      {all : List Monitor} {v : W}
      → monitor.spec.prune ≡ true
      → monitor.status.ready ≡ true
      → is_blank monitor.status.id ≡ false
      → k.list monitor.namespace w ≡ (ok all, v)
      → cleanup_monitor k t monitor w
        ≡ (if is_adopted monitor all then (none, v) else delete_monitor t monitor.status.id v)
  unfolding cleanup_monitor
  listed_cleanup p r b l = rw p (rw r (rw b (rw l refl)))

  -- The cleanup of a Monitor whose monitor of UptimeRobot another resource of the namespace has
  -- adopted succeeds, and sends nothing but the request for the resources of the namespace.
  pub cleanup_monitor_spares_adopted :
      {all : List Monitor} {v : W} {other : Monitor}
      → monitor.spec.prune ≡ true
      → monitor.status.ready ≡ true
      → is_blank monitor.status.id ≡ false
      → k.list monitor.namespace w ≡ (ok all, v)
      → Memᴰ other all
      → Adopts monitor other
      → cleanup_monitor k t monitor w ≡ (none, v)
  cleanup_monitor_spares_adopted {all} p r b l m a =
      listed_cleanup p r b l ∙ when_true _ _ _ (is_adopted_by monitor all m a)

  -- Where no resource of the namespace has adopted the monitor, the cleanup is its deletion.
  pub cleanup_monitor_deletes :
      {all : List Monitor} {v : W}
      → monitor.spec.prune ≡ true
      → monitor.status.ready ≡ true
      → is_blank monitor.status.id ≡ false
      → k.list monitor.namespace w ≡ (ok all, v)
      → ((other : Monitor) → Memᴰ other all → ¬ Adopts monitor other)
      → cleanup_monitor k t monitor w ≡ delete_monitor t monitor.status.id v
  cleanup_monitor_deletes {all} p r b l none_adopts =
      listed_cleanup p r b l ∙ elim (Bool-cases (is_adopted monitor all)) [
        | inl e ↦ let (other, m, a) = adopter_of monitor all e in absurd (none_adopts other m a)
        | inr e ↦ when_false _ _ _ e
      ]
