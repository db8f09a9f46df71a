-- ===== src/Reconcile/Publish/WriteLaws.antt =====
-- What stands behind a published heartbeat URL (internal/controller/monitor_controller.go).
use uptime_robot_operator.Prelude.{
  ◌≡◌, refl, sym, ap, ◌∙◌, String, true, false, not, Option, none, some, List, [], ◌∷◌, same_text,
  if◌then◌else◌, Bool-cases, inl, inr, when_true, when_false,
}
use uptime_robot_operator.Text.{is_blank}
use uptime_robot_operator.Failure.{Failure, Result, ok, err, is, api_not_found}
use uptime_robot_operator.Finalizer.Annotations.{lookup}
use uptime_robot_operator.Monitor.Resource.{Monitor}
use uptime_robot_operator.Reconcile.Session.{Store, Published}
use uptime_robot_operator.Reconcile.Publish.Object.{
  needs_update, with_url, without_previous, wrapped, create_owned, create_published,
  update_published, publish_to, reconcile_heartbeat_url,
}
use uptime_robot_operator.Reconcile.Publish.Laws.{value_after, lookup-entries_after}

module _ {W : Type 0} (kind : String) (store : Store W) (monitor : Monitor)
    (name key previous url : String) where
  -- The URL stands at its key, the key of the time before is gone where it is another, and every other
  -- key has the value that it had.
  abbrev pub Holds : List (String × String) → List (String × String) → Type 0
  Holds before after =
      (j : String) → lookup j after ≡ value_after key previous url j (lookup j before)

  -- What a publication without an error has done, from world w to world u: there was no object, and one with
  -- the URL alone was created under the name; or the Monitor controls the object, and its entries are
  -- as they should be, or were written so.
  pub data Publication (w u : W) : Type 0 where
    created :
        {e : Failure} {v : W} {o : Published}
        → store.get name w ≡ (err e, v)
        → is e api_not_found ≡ true
        → o.name ≡ name
        → o.namespace ≡ monitor.namespace
        → store.own o ≡ none
        → store.create o v ≡ (none, u)
        → ((j : String) → lookup j o.entries ≡ (if same_text key j then some url else none))
        → Publication w u
    unchanged :
        {o : Published}
        → store.get name w ≡ (ok o, u)
        → o.is_controlled ≡ true
        → Holds o.entries o.entries
        → Publication w u
    updated :
        {o : Published} {v : W} {entries : List (String × String)}
        → store.get name w ≡ (ok o, v)
        → o.is_controlled ≡ true
        → store.update (record o { entries = entries }) v ≡ (none, u)
        → Holds o.entries entries
        → Publication w u

  unwrapped :
      (text : String) (p : Option Failure × W) {u : W}
      → ◌≡◌ {A = Option Failure × W} (wrapped text p.0, p.1) (none, u)
      → p ≡ (none, u)
  unwrapped text (none, w) h = h
  unwrapped text (some e, w) h = absurd cc

  some_not : {e : Failure} {v u : W} → ¬ (◌≡◌ {A = Option Failure × W} (some e, v) (none, u))
  some_not h = cc

  -- the branches of update_published
  refused_update :
      (o : Published) (v : W) {u : W}
      → o.is_controlled ≡ false
      → ¬ (update_published kind store monitor name key previous url o v ≡ (none, u))
  unfolding update_published
  refused_update o v c h = let h' = (rw c at h) in absurd (some_not h')

  no_update :
      (o : Published) (v : W) {u : W}
      → o.is_controlled ≡ true
      → needs_update key previous url o.entries ≡ false
      → update_published kind store monitor name key previous url o v ≡ (none, u)
      → v ≡ u
  unfolding update_published
  no_update o v c n h = ap (λ (p : Option Failure × W). p.1) (rw n at (rw c at h))

  an_update :
      (o : Published) (v : W) {u : W}
      → o.is_controlled ≡ true
      → needs_update key previous url o.entries ≡ true
      → update_published kind store monitor name key previous url o v ≡ (none, u)
      → store.update
          (record o { entries = without_previous key previous (with_url key url o.entries) })
          v
        ≡ (none, u)
  unfolding update_published
  an_update o v c n h =
      unwrapped _ _ (sym (when_false _ _ _ (ap not c) ∙ when_false _ _ _ (ap not n)) ∙ h)

  of_object :
      (w v u : W) (o : Published)
      → is_blank url ≡ false
      → store.get name w ≡ (ok o, v)
      → update_published kind store monitor name key previous url o v ≡ (none, u)
      → Publication w u
  of_object w v u o b g h = elim (Bool-cases o.is_controlled) [
    | inr c ↦ absurd (refused_update o v c h)
    | inl c ↦ elim (Bool-cases (needs_update key previous url o.entries)) [
      | inl n ↦ updated g c (an_update o v c n h) (λ j.
          sym (ap (lookup j) (when_true _ _ _ n))
          ∙ lookup-entries_after key previous url j o.entries b)
      | inr n ↦ unchanged (g ∙ ap (λ x. (ok o, x)) (no_update o v c n h)) c (λ j.
          sym (ap (lookup j) (when_false _ _ _ n))
          ∙ lookup-entries_after key previous url j o.entries b)
    ]
  ]

  -- the object that is created
  abbrev new_object : Published
  new_object = record {
    name = name;
    namespace = monitor.namespace;
    is_controlled = true;
    entries = (key, url) ∷ [];
  }

  owned :
      (v u : W) (p : Option Failure)
      → create_owned kind store monitor name new_object p v ≡ (none, u)
      → (p ≡ none) × (store.create new_object v ≡ (none, u))
  owned v u none h = (refl, unwrapped _ _ h)
  owned v u (some e) h = absurd (some_not h)

  creation :
      (w v u : W) (e : Failure)
      → store.get name w ≡ (err e, v)
      → is e api_not_found ≡ true
      → create_published kind store monitor name key url v ≡ (none, u)
      → Publication w u
  unfolding create_published lookup
  creation w v u e g n h =
      let (o, c) = owned v u (store.own new_object) h in created g n refl refl o c (λ j. refl)

  of_answer :
      (w u : W) (p : Result Published × W)
      → is_blank url ≡ false
      → store.get name w ≡ p
      → publish_to kind store monitor name key previous url p ≡ (none, u)
      → Publication w u
  unfolding publish_to
  of_answer w u (ok o, v) b g h = of_object w v u o b g h
  of_answer w u (err e, v) b g h = elim (Bool-cases (is e api_not_found)) [
    | inl n ↦ creation w v u e g n (rw n at h)
    | inr n ↦ absurd (some_not (rw n at h))
  ]

  -- Where publishing a URL that is not blank ends without an error, there was no object of the name and one
  -- that has the URL at its key and nothing else was created, or the Monitor controls the object. The
  -- entries of that object, as they were or as they were written, have the URL at its key, have no value
  -- at the key of the time before where it is another, and have every other value that there was.
  pub reconcile_heartbeat_url-Publication :
      (w u : W)
      → is_blank url ≡ false
      → reconcile_heartbeat_url kind store monitor name key previous url w ≡ (none, u)
      → Publication w u
  unfolding reconcile_heartbeat_url
  reconcile_heartbeat_url-Publication w u b h = of_answer w u (store.get name w) b refl h
