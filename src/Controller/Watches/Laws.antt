-- ===== src/Controller/Watches/Laws.antt =====
-- Which resources a change of a Monitor concerns (SetupWithManager of the controllers of maintenance windows
-- and of monitor groups).
use mathlib.Core.List.{Memᴰ}
use uptime_robot_operator.Prelude.{
  ◌≡◌, ◌≢◌, refl, sym, ap, String, Bool, true, ◌&&◌, ◌||◌, not, List, [], ◌∷◌, ◌↔◌, inl, inr,
  same_text, same_text_iff, and_true, and_true_left, and_true_right, or_true-cases, or_true_right,
  Bool-cases, keep_members, map_members,
}
use uptime_robot_operator.Text.{is_blank}
use uptime_robot_operator.Failure.{ok}
use uptime_robot_operator.Monitor.Resource.{Monitor}
use uptime_robot_operator.Controller.Session.{Object}
use uptime_robot_operator.Windows.Resource.{MaintenanceWindow}
use uptime_robot_operator.Groups.Resource.{MonitorGroup}
use uptime_robot_operator.Controller.Watches.{
  NamespacedName, without_blanks, monitor_refs_index, monitors_index, has_entry, selected,
  request_for, requests, window_requests, group_requests,
}

or_left : (a b : Bool) → a ≡ true → (a || b) ≡ true
or_left a b h = rw h refl

has_entry-Mem : (key : String) (ks : List String) → has_entry key ks ≡ true → Memᴰ key ks
has_entry-Mem key [] h = absurd cc
has_entry-Mem key (k ∷ more) h = elim (or_true-cases _ _ h) [
  | inl e ↦ Memᴰ.head (sym ((same_text_iff k key).0 e))
  | inr m ↦ Memᴰ.tail (has_entry-Mem key more m)
]

Mem-has_entry : (key : String) (ks : List String) → Memᴰ key ks → has_entry key ks ≡ true
Mem-has_entry key [] m = elim m [ ]
Mem-has_entry key (k ∷ more) (Memᴰ.head e) = or_left _ _ ((same_text_iff k key).1 (sym e))
Mem-has_entry key (k ∷ more) (Memᴰ.tail t) = or_true_right _ _ (Mem-has_entry key more t)

not_blank : (name : String) → not (is_blank name) ≡ true → name ≢ ""
not_blank name h e = let b : is_blank name ≡ true = (same_text_iff name "").1 e in absurd cc

blank_not : (name : String) → name ≢ "" → not (is_blank name) ≡ true
blank_not name n = elim (Bool-cases (is_blank name)) [
  | inl b ↦ absurd (n ((same_text_iff name "").0 b))
  | inr b ↦ ap not b
]

-- the names of the references that an index has
without_blanks_members :
    (name : String) (names : List String)
    → Memᴰ name (without_blanks names) ↔ (Memᴰ name names × (name ≢ ""))
unfolding without_blanks
without_blanks_members name names =
    let k = keep_members (λ n. not (is_blank n)) name names in
    (λ m. ((k.0 m).0, not_blank name (k.0 m).1), λ (m, n). k.1 (m, blank_not name n))

module _ {Spec Extra : Type 0} (index : Object Spec Extra → List String)
    (namespace key : String) where
  -- a resource of the namespace that the index has under the key
  abbrev pub Asked : List (Object Spec Extra) → NamespacedName → Type 0
  Asked all r =
      (o : Object Spec Extra) × Memᴰ o all
      × (o.namespace ≡ namespace)
      × Memᴰ key (index o)
      × (r ≡ request_for o)

  wanted : Object Spec Extra → Bool
  wanted o = same_text o.namespace namespace && has_entry key (index o)

  asked :
      (all : List (Object Spec Extra)) (r : NamespacedName)
      → Memᴰ r (requests index namespace key (ok all))
      → Asked all r
  unfolding selected wanted
  asked all r m =
      let (o, n, e) = (map_members request_for r (selected index namespace key all)).0 m in
      let (l, w) = (keep_members wanted o all).0 n in
      (
        o,
        l,
        (same_text_iff o.namespace namespace).0 (and_true_left _ _ w),
        has_entry-Mem key (index o) (and_true_right _ _ w),
        e,
      )

  asks :
      (all : List (Object Spec Extra)) (r : NamespacedName)
      → Asked all r
      → Memᴰ r (requests index namespace key (ok all))
  unfolding selected wanted
  asks all r (o, l, n, k, e) =
      let w =
        and_true _ _ ((same_text_iff o.namespace namespace).1 n) (Mem-has_entry key (index o) k) in
      (map_members request_for r (selected index namespace key all)).1
        (o, (keep_members wanted o all).1 (l, w), e)

-- A change of a Monitor asks for a reconcile of exactly the maintenance windows of its namespace that refer to
-- it by name, where its name is not empty.
pub window_requests_members :
    (monitor : Monitor) (all : List MaintenanceWindow) (r : NamespacedName)
    → Memᴰ r (window_requests monitor (ok all)) ↔ (
        (w : MaintenanceWindow) × Memᴰ w all
        × (w.namespace ≡ monitor.namespace)
        × (Memᴰ monitor.name w.spec.monitor_refs × (monitor.name ≢ ""))
        × (r ≡ request_for w))
unfolding window_requests monitor_refs_index
window_requests_members monitor all r =
    let name = monitor.name in
    (
      λ m.
          let (w, l, n, k, e) = asked monitor_refs_index monitor.namespace name all r m in
          (w, l, n, (without_blanks_members name w.spec.monitor_refs).0 k, e),
      λ (w, l, n, k, e).
          asks monitor_refs_index monitor.namespace name all r
            (w, l, n, (without_blanks_members name w.spec.monitor_refs).1 k, e),
    )

-- A change of a Monitor asks for a reconcile of exactly the monitor groups of its namespace that refer to it by
-- name, where its name is not empty.
pub group_requests_members :
    (monitor : Monitor) (all : List MonitorGroup) (r : NamespacedName)
    → Memᴰ r (group_requests monitor (ok all)) ↔ (
        (g : MonitorGroup) × Memᴰ g all
        × (g.namespace ≡ monitor.namespace)
        × (Memᴰ monitor.name g.spec.monitors × (monitor.name ≢ ""))
        × (r ≡ request_for g))
unfolding group_requests monitors_index
group_requests_members monitor all r =
    let name = monitor.name in
    (
      λ m.
          let (g, l, n, k, e) = asked monitors_index monitor.namespace name all r m in
          (g, l, n, (without_blanks_members name g.spec.monitors).0 k, e),
      λ (g, l, n, k, e).
          asks monitors_index monitor.namespace name all r
            (g, l, n, (without_blanks_members name g.spec.monitors).1 k, e),
    )
