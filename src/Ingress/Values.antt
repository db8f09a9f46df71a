-- ===== src/Ingress/Values.antt =====
-- internal/controller/ingress_controller.go: updateValues.
pub mod Laws
use uptime_robot_operator.Prelude.{
  ℕ, String, Bool, Option, none, some, List, [], ◌∷◌, ◌==◌, same_text, if◌then◌else◌,
}
use uptime_robot_operator.Failure.{Failure, Result, ok, err}
use uptime_robot_operator.Finalizer.Annotations.{Annotations, lookup}
use uptime_robot_operator.Monitor.Resource.{Monitor, MonitorSpec}
use uptime_robot_operator.Ingress.Annotations.{erase}

-- A rule of an Ingress: its host, and the paths of its HTTP part, a pointer that may be nil.
pub record IngressRule : Type 0 where
  pub host : String
  pub http : Option (List String)

-- the parts of an Ingress that are read
pub record Ingress : Type 0 where
  pub kind : String
  pub name : String
  pub namespace : String
  pub is_deleting : Bool
  pub annotations : Annotations
  pub finalizers : List String
  pub rules : List IngressRule
  -- the number of entries of Spec.TLS
  pub tls : ℕ

pub record Url : Type 0 where
  pub scheme : String
  pub host : String
  pub path : String

-- Functions of other packages: URL.String of net/url; and the decoder of mapstructure with its hooks, on
-- the map that Unflatten makes, over the specification of a Monitor.
pub record Decoding : Type 0 where
  pub url_string : Url → String
  pub decode : Annotations → MonitorSpec → Result MonitorSpec

-- the specification that updateValues leaves, its error, or a panic
pub data Updated : Type 0 where
  updated : MonitorSpec → Updated
  refused : Failure → Updated
  panics : Updated

unfoldable pub or_else : String → Option String → String
or_else d none = d
or_else d (some s) = s

unfoldable pub default_scheme : ℕ → String
default_scheme tls = if tls == 0 then "http" else "https"

-- the first path of a rule, where "/" counts as none
abbrev pub first_path : List String → String
first_path [] = ""
first_path (p ∷ more) = if same_text p "/" then "" else p

-- The path: the annotation is used as it is, and else the paths of the rule are read, which there need
-- not be any of: none is a panic.
unfoldable pub url_path : Option String → Option (List String) → Option String
url_path (some p) http = some p
url_path none none = none
url_path none (some paths) = some (first_path paths)

abbrev pub with_path : String → String → Option String → Option (Option Url)
with_path scheme host none = none
with_path scheme host (some path) =
    some (some (record { scheme = scheme; host = host; path = path }))

-- the URL of the first rule; `none` for a panic, and `some none` where there is no rule
unfoldable pub rule_url : Annotations → ℕ → List IngressRule → Option (Option Url)
unfolding or_else default_scheme url_path
rule_url a tls [] = some none
rule_url a tls (rule ∷ more) =
    with_path (or_else (default_scheme tls) (lookup "monitor.scheme" a))
      (or_else rule.host (lookup "monitor.host" a)) (url_path (lookup "monitor.path" a) rule.http)

-- the URL of the rules is looked for only where there is no annotation "monitor.url"
unfoldable pub derived_url : Option String → Option (Option Url) → Option (Option Url)
derived_url none by_rule = by_rule
derived_url (some u) by_rule = some none

-- the annotations that the decoder is given
unfoldable pub remaining : Annotations → Annotations
unfolding erase
remaining a =
    erase "monitor.path"
      (erase "monitor.host" (erase "monitor.scheme" (erase "monitor.url" (erase "enabled" a))))

abbrev pub set_name : String → MonitorSpec → MonitorSpec
set_name name spec = record spec { monitor = record spec.monitor { name = name } }

abbrev pub set_url : String → MonitorSpec → MonitorSpec
set_url url spec = record spec { monitor = record spec.monitor { url = url } }

module _ (d : Decoding) where
  abbrev pub decoded : Result MonitorSpec → Updated
  decoded (ok spec) = updated spec
  decoded (err e) = refused e

  abbrev pub decode_after : Annotations → MonitorSpec → Option (Option Url) → Updated
  decode_after a spec none = panics
  decode_after a spec (some none) = decoded (d.decode (remaining a) spec)
  decode_after a spec (some (some u)) =
      decoded (d.decode (remaining a) (set_url (d.url_string u) spec))

  -- updateValues; the map of annotations that the caller holds loses the keys that `remaining` erases
  unfoldable pub update_values : Ingress → MonitorSpec → Annotations → Updated
  unfolding rule_url derived_url remaining
  update_values i spec a =
      decode_after a (set_name i.name spec)
        (derived_url (lookup "monitor.url" a) (rule_url a i.tls i.rules))
