-- ===== src/Ingress/Values/Laws.antt =====
-- What an Ingress makes of the URL of its Monitor (internal/controller/ingress_controller.go).
use uptime_robot_operator.Prelude.{
  ◌≡◌, refl, ap, ◌∙◌, ℕ, String, Bool, true, false, Option, none, some, List, ◌∷◌, if◌then◌else◌,
  same_text_refl, when_true, same_text,
}
use uptime_robot_operator.Finalizer.Annotations.{Annotations, lookup}
use uptime_robot_operator.Monitor.Resource.{MonitorSpec}
use uptime_robot_operator.Ingress.Annotations.{erase}
use uptime_robot_operator.Ingress.Annotations.Laws.{lookup-erase}
use uptime_robot_operator.Ingress.Values.{
  Ingress, IngressRule, Decoding, panics, url_path, rule_url, derived_url, remaining, set_name,
  decoded, decode_after, update_values,
}

either_none : {A : Type 0} (b : Bool) {o : Option A} → o ≡ none → (if b then none else o) ≡ none
either_none true h = refl
either_none false h = h

gone_here : (k : String) (a : Annotations) → lookup k (erase k a) ≡ none
gone_here k a = lookup-erase k k a ∙ when_true _ _ _ (same_text_refl k)

still_gone : (k j : String) (a : Annotations) → lookup j a ≡ none → lookup j (erase k a) ≡ none
still_gone k j a h = lookup-erase k j a ∙ either_none (same_text k j) h

-- The annotation for the URL is not passed on to the decoder.
url_is_erased : (a : Annotations) → lookup "monitor.url" (remaining a) ≡ none
unfolding remaining
url_is_erased a = still_gone "monitor.path" "monitor.url" _ (
    still_gone "monitor.host" "monitor.url" _
      (still_gone "monitor.scheme" "monitor.url" _ (gone_here "monitor.url" (erase "enabled" a))))

rule_panics :
    (a : Annotations) (tls : ℕ) (rule : IngressRule) (more : List IngressRule)
    → lookup "monitor.path" a ≡ none
    → rule.http ≡ none
    → rule_url a tls (rule ∷ more) ≡ none
unfolding rule_url url_path
rule_panics a tls rule more p n = rw p (rw n refl)

module _ (d : Decoding) where
  -- Where there is an annotation for the URL, no URL is set: the decoder is given the specification with
  -- its name changed alone, and annotations among which that for the URL is no longer.
  pub update_values_drops_url :
      (i : Ingress) (spec : MonitorSpec) (a : Annotations) {u : String}
      → lookup "monitor.url" a ≡ some u
      → (update_values d i spec a ≡ decoded d (d.decode (remaining a) (set_name i.name spec)))
        × (lookup "monitor.url" (remaining a) ≡ none)
  unfolding update_values derived_url
  update_values_drops_url i spec a h = (rw h refl, url_is_erased a)

  -- Where neither the URL nor its path is annotated and the first rule has no HTTP part, the update is a
  -- panic.
  pub update_values_panics :
      (i : Ingress) (spec : MonitorSpec) (a : Annotations) {rule : IngressRule}
      {more : List IngressRule}
      → lookup "monitor.url" a ≡ none
      → lookup "monitor.path" a ≡ none
      → i.rules ≡ rule ∷ more
      → rule.http ≡ none
      → update_values d i spec a ≡ panics
  unfolding update_values derived_url
  update_values_panics i spec a {rule} {more} u p r n =
      ap (λ x. decode_after d a (set_name i.name spec) (derived_url x (rule_url a i.tls i.rules))) u
      ∙ ap (λ x. decode_after d a (set_name i.name spec) (rule_url a i.tls x)) r
      ∙ ap (decode_after d a (set_name i.name spec)) (rule_panics a i.tls rule more p n)
