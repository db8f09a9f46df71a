-- ===== src/Finalizer/Annotations.antt =====
-- The annotations of a Kubernetes object, a map from text to text, and the operations of Go's
-- package time on them that internal/controller/finalizer.go uses.
use uptime_robot_operator.Prelude.{
  String, ◌≡◌, refl, Option, none, some, List, [], ◌∷◌, arith, same_text, same_text_iff,
  if◌then◌else◌,
}
use uptime_robot_operator.Prelude.Int.{ℤ}

abbrev pub Annotations : Type 0
Annotations = List (String × String)

-- annotations[key]
unfoldable pub lookup : String → Annotations → Option String
lookup k [] = none
lookup k ((j, v) ∷ m) = if same_text j k then some v else lookup k m

-- annotations[key] = value
unfoldable pub insert : String → String → Annotations → Annotations
insert k v [] = (k, v) ∷ []
insert k v ((j, w) ∷ m) = if same_text j k then (k, v) ∷ m else (j, w) ∷ insert k v m

pub lookup-insert :
    (k j v : String) (m : Annotations)
    → lookup j (insert k v m) ≡ (if same_text k j then some v else lookup j m)
unfolding lookup insert
lookup-insert k j v [] = refl
lookup-insert k j v ((i, w) ∷ m) =
    ground (arith, same_text_iff k j, same_text_iff i k, same_text_iff i j, lookup-insert k j v m)

-- time.Parse and Format at RFC 3339, and the texts that fmt makes of durations
pub record TimeFormat : Type 0 where
  pub parse : String → Option ℤ
  pub format : ℤ → String
  pub show : ℤ → String
  pub show_rounded : ℤ → String
