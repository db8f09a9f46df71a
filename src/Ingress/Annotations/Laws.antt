-- ===== src/Ingress/Annotations/Laws.antt =====
-- The annotations of an Ingress by the key without the prefix
-- (internal/controller/ingress_controller.go).
use Prim.Native.Char.{code}
use Prim.Native.String.{◌++◌}
use text.Mathlib.TextLemmas.{nil-append, cons-append}
use text.Mathlib.TextEquality.{Char-path}
use uptime_robot_operator.Prelude.{
  ◌≡◌, refl, sym, ap, ◌∙◌, ℕ, String, Bool, true, false, none, [], ◌∷◌, ◌==◌, if◌then◌else◌,
  same_text, same_text_iff, Bool-cases, inl, inr, arith, and_true_left, and_true_right,
}
use uptime_robot_operator.Text.{has_prefix}
use uptime_robot_operator.Text.Laws.{has_prefix-append}
use uptime_robot_operator.Finalizer.Annotations.{Annotations, lookup}
use uptime_robot_operator.Ingress.Annotations.{
  ingress_annotation_prefix, drop_prefix, matching, count_matching, get_matching_annotations, erase,
}

same_tests : (a b : Bool) → (a ≡ true → b ≡ true) → (b ≡ true → a ≡ true) → a ≡ b
same_tests true b f g = sym (f refl)
same_tests false true f g = g refl
same_tests false false f g = refl

true_is_not_false : ¬ (true ≡ false)
true_is_not_false h = cc

not_true : (b : Bool) → ¬ (b ≡ true) → b ≡ false
not_true true n = absurd (n refl)
not_true false n = refl

same_code : (m n : ℕ) → (m == n) ≡ true → m ≡ n
same_code m n h = ground arith

with_prefix : (s p : String) → has_prefix s p ≡ true → s ≡ p ++ drop_prefix s p
unfolding has_prefix drop_prefix
with_prefix s String.[] h = sym (nil-append s)
with_prefix String.[] (String.◌∷◌ c p) h = absurd cc
with_prefix (String.◌∷◌ d s) (String.◌∷◌ c p) h =
    let same : d ≡ c = Char-path d c (same_code _ _ (and_true_left _ _ h)) in
    ap (λ x. String.◌∷◌ d x) (with_prefix s p (and_true_right (code d == code c) _ h))
    ∙ ap (λ x. String.◌∷◌ x (p ++ drop_prefix s p)) same
    ∙ sym (cons-append c p (drop_prefix s p))

dropped : (p k : String) → drop_prefix (p ++ k) p ≡ k
unfolding drop_prefix
dropped String.[] k = nil-append k
dropped (String.◌∷◌ c p) k = rw (cons-append c p k) (dropped p k)

-- a key without its prefix is k just where the key is the prefix and k
same_dropped :
    (p j k : String) → has_prefix j p ≡ true → same_text (drop_prefix j p) k ≡ same_text j (p ++ k)
same_dropped p j k h =
    same_tests _ _
      (λ e. (same_text_iff _ _).1 (with_prefix j p h ∙ ap (λ x. p ++ x) ((same_text_iff _ _).0 e)))
      (λ e.
        (same_text_iff _ _).1 (ap (λ x. drop_prefix x p) ((same_text_iff _ _).0 e) ∙ dropped p k))

other_key : (p j k : String) → has_prefix j p ≡ false → same_text j (p ++ k) ≡ false
other_key p j k h = not_true _ (λ e. true_is_not_false (
    sym (has_prefix-append p k)
    ∙ ap (λ x. has_prefix x p) (sym ((same_text_iff j (p ++ k)).0 e))
    ∙ h))

lookup-matching : (p k : String) (a : Annotations) → lookup k (matching p a) ≡ lookup (p ++ k) a
unfolding lookup matching
lookup-matching p k [] = refl
lookup-matching p k ((j, v) ∷ more) = elim (Bool-cases (has_prefix j p)) [
  | inl y ↦ rw y (rw (same_dropped p j k y) (rw (lookup-matching p k more) refl))
  | inr n ↦ rw n (rw (other_key p j k n) (lookup-matching p k more))
]

none_matching : (p k : String) (a : Annotations) → count_matching p a ≡ 0 → matching p a ≡ []
unfolding count_matching matching
none_matching p k [] h = refl
none_matching p k ((j, v) ∷ more) h = elim (Bool-cases (has_prefix j p)) [
  | inl y ↦ absurd (ground arith)
  | inr n ↦ rw n (none_matching p k more (ground arith))
]

-- The reconciler reads at a key what the Ingress has at the key with the prefix in front.
pub lookup-get_matching_annotations :
    (k : String) (a : Annotations)
    → lookup k (get_matching_annotations a) ≡ lookup (ingress_annotation_prefix ++ k) a
unfolding get_matching_annotations
lookup-get_matching_annotations k a =
    elim (Bool-cases (count_matching ingress_annotation_prefix a == 0)) [
      | inl y ↦ rw y (
          ap (lookup k) (sym (none_matching ingress_annotation_prefix k a (same_code _ _ y)))
          ∙ lookup-matching ingress_annotation_prefix k a)
      | inr n ↦ rw n (lookup-matching ingress_annotation_prefix k a)
    ]

-- deleting a key
pub lookup-erase :
    (k j : String) (a : Annotations)
    → lookup j (erase k a) ≡ (if same_text k j then none else lookup j a)
unfolding lookup erase
lookup-erase k j [] = ground arith
lookup-erase k j ((i, v) ∷ more) =
    ground (arith, same_text_iff i k, same_text_iff k j, same_text_iff i j, lookup-erase k j more)
