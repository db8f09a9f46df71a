-- ===== src/Ingress/Main/Laws.antt =====
-- Which Monitors an Ingress finds, and when it is let go (internal/controller/ingress_controller.go).
use mathlib.Core.List.{Memᴰ}
use mathlib.Core.Path.{subst}
use uptime_robot_operator.Prelude.{
  ◌≡◌, refl, sym, ap, ◌∙◌, true, Option, none, some, List, [], ◌∷◌, ◌↔◌, same_text_iff,
  keep_members, when_true,
}
use uptime_robot_operator.Text.{concat}
use uptime_robot_operator.Failure.{Failure, ok}
use uptime_robot_operator.Monitor.Resource.{Monitor, SourceRef}
use uptime_robot_operator.Reconcile.Session.{Ending}
use uptime_robot_operator.Reconcile.Deletion.{finalizer_name}
use uptime_robot_operator.Ingress.Values.{Ingress}
use uptime_robot_operator.Ingress.Main.{
  IngressCluster, source_index, indexed_by, source_key, with_source, found_in, find_monitors,
  and_then, before, done, delete_monitors, release,
}

-- the reference of a Monitor to its source reads as that of an Ingress
pub record IsSource (i : Ingress) (m : Monitor) : Type 0 where
  pub ref : SourceRef
  pub is_ref : m.spec.source_ref ≡ some ref
  pub reads : concat (ref.kind ∷ "/" ∷ ref.name ∷ []) ≡ source_key i

source_index-IsSource :
    (i : Ingress) (m : Monitor) (o : Option SourceRef)
    → m.spec.source_ref ≡ o
    → indexed_by (source_key i) (source_index o) ≡ true
    → IsSource i m
unfolding source_index
source_index-IsSource i m none e h = absurd cc
source_index-IsSource i m (some r) e h = record {
  ref = r;
  is_ref = e;
  reads = (same_text_iff _ _).0 h;
}

indexed_source :
    (i : Ingress) (m : Monitor)
    → IsSource i m
    → indexed_by (source_key i) (source_index m.spec.source_ref) ≡ true
unfolding source_index
indexed_source i m s =
    ap (λ o. indexed_by (source_key i) (source_index o)) s.is_ref ∙ (same_text_iff _ _).1 s.reads

with_source_members :
    (i : Ingress) (all : List Monitor) (m : Monitor)
    → Memᴰ m (with_source (source_key i) all) ↔ (Memᴰ m all × IsSource i m)
unfolding with_source
with_source_members i all m =
    let k = keep_members (λ x. indexed_by (source_key i) (source_index x.spec.source_ref)) m all in
    (
      λ h. let (t, e) = k.0 h in (t, source_index-IsSource i m _ refl e),
      λ (t, s). k.1 (t, indexed_source i m s),
    )

module _ {W : Type 0} (k : IngressCluster W) where
  -- The Monitors that an Ingress takes for its own, to update them and to delete them, are those of all
  -- namespaces whose reference to a source reads as its kind and name: the namespaces of the two are not
  -- compared.
  pub find_monitors_members :
      (i : Ingress) (w : W) {all : List Monitor} {v : W}
      → k.monitors w ≡ (ok all, v)
      → (found : List Monitor) × (find_monitors k i w ≡ (ok found, v))
        × ((m : Monitor) → Memᴰ m found ↔ (Memᴰ m all × IsSource i m))
  unfolding find_monitors
  find_monitors_members i w {all} {v} h =
      (with_source (source_key i) all, ap (found_in k i) h, with_source_members i all)

  -- the Monitors of a list are deleted one after another, and none of the deletions fails
  pub data Deleted : List Monitor → W → W → Type 0 where
    nothing : {w : W} → Deleted [] w w
    one_more :
        {m : Monitor} {more : List Monitor} {w v u : W}
        → k.delete_monitor m w ≡ (none, v)
        → Deleted more v u
        → Deleted (m ∷ more) w u

  before_none :
      (p : Option Failure × W) (f : W → Option Failure × W) {u : W}
      → before k p f ≡ (none, u)
      → (v : W) × (p ≡ (none, v)) × (f v ≡ (none, u))
  before_none (none, v) f h = (v, refl, h)
  before_none (some e, v) f h = absurd cc

  and_then-done :
      (p : Option Failure × W) (f : W → Ending × W) {u : W}
      → and_then k p f ≡ (done, u)
      → (v : W) × (p ≡ (none, v)) × (f v ≡ (done, u))
  and_then-done (none, v) f h = (v, refl, h)
  and_then-done (some e, v) f h = absurd cc

  delete_monitors-Deleted :
      (list : List Monitor) (w : W) {u : W}
      → delete_monitors k list w ≡ (none, u)
      → Deleted list w u
  unfolding delete_monitors
  delete_monitors-Deleted [] w h = subst (Deleted [] w) (cc) nothing
  delete_monitors-Deleted (m ∷ more) w h =
      let (v, e, f) = before_none _ _ h in one_more e (delete_monitors-Deleted more v f)

  -- A reconcile that lets an Ingress with a finalizer go without an error has deleted all the Monitors that
  -- were found, in their order, and has then written the Ingress without the finalizer.
  pub release_deletes_all :
      (i : Ingress) (list : List Monitor) (w : W) {u : W}
      → k.contains_finalizer i finalizer_name ≡ true
      → release k i list w ≡ (done, u)
      → (v : W) × Deleted list w v × (k.update (k.remove_finalizer i finalizer_name) v ≡ (none, u))
  unfolding release
  release_deletes_all i list w c h =
      let (v, e, f) = and_then-done _ _ (sym (when_true _ _ _ c) ∙ h) in
      let (x, q, r) = and_then-done _ _ f in
      (v, delete_monitors-Deleted list w e, q ∙ ap (λ (p : Ending × W). (none, p.1)) r)
