-- ===== src/Ingress/Annotations.antt =====
-- internal/controller/ingress_controller.go: getMatchingAnnotations, and the test of the annotation
-- "enabled".
pub mod Laws
use Prim.Native.Char.{code}
use uptime_robot_operator.Prelude.{
  ℕ, suc, String, Bool, true, false, ◌||◌, Option, none, some, List, [], ◌∷◌, ◌==◌, same_text,
  if◌then◌else◌,
}
use uptime_robot_operator.Text.{has_prefix}
use uptime_robot_operator.Finalizer.Annotations.{Annotations}

abbrev pub ingress_annotation_prefix : String
ingress_annotation_prefix = "uptimerobot.com/"

-- strings.TrimPrefix(s, p), for a text s with that prefix
unfoldable pub drop_prefix : String → String → String
drop_prefix s String.[] = s
drop_prefix String.[] (String.◌∷◌ c p) = ""
drop_prefix (String.◌∷◌ d s) (String.◌∷◌ c p) = drop_prefix s p

-- the annotations whose keys have the prefix, less the prefix
unfoldable pub matching : String → Annotations → Annotations
unfolding has_prefix drop_prefix
matching p [] = []
matching p ((k, v) ∷ more) =
    let rest = matching p more in if has_prefix k p then (drop_prefix k p, v) ∷ rest else rest

-- countMatchingAnnotations
unfoldable pub count_matching : String → Annotations → ℕ
count_matching p [] = 0
count_matching p ((k, v) ∷ more) =
    let rest = count_matching p more in if has_prefix k p then suc rest else rest

-- getMatchingAnnotations: no map at all where no annotation matches, which reads as an empty one
unfoldable pub get_matching_annotations : Annotations → Annotations
unfolding matching count_matching
get_matching_annotations a =
    if count_matching ingress_annotation_prefix a == 0
    then []
    else matching ingress_annotation_prefix a

abbrev one_of : List String → String → Bool
one_of [] s = false
one_of (t ∷ ts) s = same_text s t || one_of ts s

-- strconv.ParseBool
unfoldable pub parse_bool : String → Option Bool
parse_bool s =
    if one_of ("1" ∷ "t" ∷ "T" ∷ "true" ∷ "TRUE" ∷ "True" ∷ []) s
    then some true
    else if one_of ("0" ∷ "f" ∷ "F" ∷ "false" ∷ "FALSE" ∷ "False" ∷ []) s
    then some false
    else none

-- delete(annotations, key)
unfoldable pub erase : String → Annotations → Annotations
erase key [] = []
erase key ((k, v) ∷ more) =
    let rest = erase key more in if same_text k key then rest else (k, v) ∷ rest
